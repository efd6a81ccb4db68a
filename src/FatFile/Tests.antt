-- ===== src/FatFile/Tests.antt =====
-- A file of src/fsfat.c in two clusters, and the theorems at it.
use boss.Prelude.{
  ℕ, zero, suc, ◌+◌, ◌*◌, ◌^◌, ◌<◌, ◌≡◌, refl, true, false, inr, Option, none, some, ◌==◌,
  if◌then◌else◌, pos, arith,
}
use boss.Fat.{FatFs, fat16, u16_at, read_fat, end_mark, next_cluster, cluster_sect, read_cluster}
use boss.Memfile.{seek_set}
use boss.FatFile.{FatFile, seek_pos, seek, read}
use boss.FatFile.Reading.{IsMounted, Stores, IsAt, Gives, read-Gives}
use boss.FatFile.Seeking.{seek-IsAt}

-- Cluster 2 is followed by cluster 3.
abbrev volume : FatFs
volume = record {
  type = fat16;
  start_sect = 0;
  size = 100000;
  cluster_size = 1;
  fat_size = 400;
  fat_sect = 1;
  root_sect = 401;
  root_size = 32;
  first_data_sect = 433;
  num_data_sect = 99567;
  num_clusters = 99567;
  clust_mask = 511;
  clust_shift = 9;
  fat = λ i. if i == 4 then 3 else 0;
}

-- Each byte is the number of its sector.
abbrev disk : ℕ → ℕ → Option (ℕ → ℕ)
disk sector count = some (λ i. sector)

abbrev cluster : ℕ → ℕ
cluster n = n + 2

abbrev block : ℕ → ℕ → ℕ
block n i = n + 433

-- 600 bytes, of which the first 510 have been read.
abbrev opened : FatFile
opened = record {
  size_bytes = 600;
  first_clust = 2;
  cur_pos = 510;
  cur_clust = some 2;
  clustbuf = λ i. 433;
  buf_valid = true;
}

abbrev at_end : FatFile
at_end = record opened { cur_pos = 600; cur_clust = none; buf_valid = false }

volume-IsMounted : IsMounted volume
volume-IsMounted = record { bytes = refl; mask = refl }

next_of : (n : ℕ) → (n + 1) * 2 ^ 9 < 600 → next_cluster volume (cluster n) ≡ some (cluster (n + 1))
unfolding next_cluster read_fat u16_at end_mark
next_of zero h = refl
next_of (suc n) h = absurd (omega arith)

stored_at : (n : ℕ) → n * 2 ^ 9 < 600 → read_cluster disk volume (cluster n) ≡ some (block n)
unfolding read_cluster cluster_sect
stored_at zero h = refl
stored_at (suc zero) h = refl
stored_at (suc (suc n)) h = absurd (omega arith)

file-Stores : Stores disk volume 2 600 cluster block
file-Stores = record { starts = refl; linked = next_of; stored = stored_at }

read-Gives_example :
    Gives disk volume volume-IsMounted 2 600 cluster block file-Stores 20 opened
      (read volume disk 20 opened)
read-Gives_example =
    read-Gives disk volume volume-IsMounted 2 600 cluster block file-Stores 20 opened
      ((refl, refl), (omega arith, refl), refl)

seek-IsAt_example :
    (f' : FatFile) × (seek volume (pos 3) seek_set at_end ≡ (pos 0, f'))
    × (f'.cur_pos ≡ 3)
    × IsAt disk volume volume-IsMounted 2 600 cluster block file-Stores f'
unfolding seek_pos
seek-IsAt_example =
    seek-IsAt disk volume volume-IsMounted 2 600 cluster block file-Stores (pos 3) seek_set at_end 3
      refl (omega arith) (inr (((refl, refl), (refl, refl), refl), omega arith))
