-- ===== src/FatDir/Tests.antt =====
-- Directories of src/fsfat.c at concrete entries, and the theorems at such inputs.
use boss.Prelude.{
  ℕ, zero, suc, ◌+◌, ◌<◌, ◌≡◌, ◌≢◌, refl, Option, none, some, List, [], ◌∷◌, ◌==◌, if◌then◌else◌,
  get_or, arith,
}
use boss.Fat.{FatFs, fat16, u16_at, read_fat, end_mark, next_cluster, cluster_sect, read_cluster}
use boss.Fat.Chain.{Linked}
use boss.FatDir.{
  Slot, FatDir, parse_dir_entries, dent_filename, has_lfn, lfn_name, lfn_part, lfn_unit,
  load_clusters, load_dir, open_path, endless,
}
use boss.FatDir.Loading.{blocks_from, load_clusters-Linked}
use boss.FatDir.Walking.{Ranked, open_path-ends}

-- "READ    ME " at the start of an entry.
abbrev read_me : Slot
read_me i = get_or (b'R' ∷ b'E' ∷ b'A' ∷ b'D' ∷ 32 ∷ 32 ∷ 32 ∷ 32 ∷ b'M' ∷ b'E' ∷ 32 ∷ []) i 0

abbrev base : List ℕ
base = b'R' ∷ b'E' ∷ b'A' ∷ b'D' ∷ []

abbrev ext : List ℕ
ext = b'M' ∷ b'E' ∷ []

-- A long name of two characters, in the slot before its entry.
abbrev slots : ℕ → Slot
slots zero i =
    if i == 0
    then 65
    else if i == 1
    then b'h'
    else if i == 3
    then b'i'
    else if i == 11
    then 15
    else 0
slots (suc n) i = read_me i

long_name : dent_filename slots 1 0 ≡ b'h' ∷ b'i' ∷ []
unfolding dent_filename has_lfn lfn_name lfn_part lfn_unit u16_at
long_name = refl

-- Cluster 2 is followed by cluster 3, which is the last.
abbrev volume : FatFs
volume = record {
  type = fat16;
  start_sect = 0;
  size = 100000;
  cluster_size = 1;
  fat_size = 400;
  fat_sect = 1;
  root_sect = 401;
  root_size = 32;
  first_data_sect = 433;
  num_data_sect = 99567;
  num_clusters = 99567;
  clust_mask = 511;
  clust_shift = 9;
  fat = λ i. if i == 4 then 3 else 0;
}

abbrev disk : ℕ → ℕ → Option (ℕ → ℕ)
disk sector count = some (λ i. sector)

abbrev cluster : ℕ → ℕ
cluster n = n + 2

abbrev block : ℕ → ℕ → ℕ
block n i = n + 433

two-Linked : Linked volume cluster 2
unfolding next_cluster read_fat u16_at end_mark
two-Linked zero h = refl
two-Linked (suc n) h = absurd (omega arith)

last_of_two : next_cluster volume 3 ≡ none
unfolding next_cluster read_fat u16_at end_mark
last_of_two = refl

two_stored : (k : ℕ) → k < 2 → read_cluster disk volume (cluster k) ≡ some (block k)
unfolding read_cluster cluster_sect
two_stored zero h = refl
two_stored (suc zero) h = refl
two_stored (suc (suc k)) h = absurd (omega arith)

load_clusters-Linked_example :
    load_clusters 5 disk volume (cluster 0) ≡ some (some (blocks_from block 0 2))
load_clusters-Linked_example =
    load_clusters-Linked disk volume cluster block 1 5 two-Linked last_of_two two_stored
      (omega arith)

-- Cluster 2 is followed by itself.
abbrev looped : FatFs
looped = record volume { fat = λ i. if i == 4 then 2 else 0 }

loop_next : next_cluster looped 2 ≡ some 2
unfolding next_cluster read_fat u16_at end_mark
loop_next = refl

loop_stored : read_cluster disk looped 2 ≡ some (λ i. 433)
unfolding read_cluster cluster_sect
loop_stored = refl

-- A root directory with one file.
abbrev root : FatDir
root = parse_dir_entries (λ n i. if n == 0 then read_me i else 0) 16

-- The steps that are left in a chain of the first volume.
abbrev rank : ℕ → ℕ
rank a = if a == 2 then 1 else 0

volume-Ranked : Ranked volume rank
unfolding next_cluster read_fat u16_at end_mark
volume-Ranked a c e = ground arith

open_path-ends_example :
    open_path (load_dir 2 disk volume) root root (b'/' ∷ b'a' ∷ b'/' ∷ b'b' ∷ []) ≢ endless
open_path-ends_example =
    open_path-ends disk volume rank 2 root root (b'/' ∷ b'a' ∷ b'/' ∷ b'b' ∷ []) volume-Ranked
      (λ a. ground arith)
