-- ===== src/Fat/Tests.antt =====
-- The layout and the table of a volume of src/fsfat.c at concrete numbers.
use boss.Prelude.{◌+◌, ◌≤◌, ◌≡◌, refl, some, arith}
use boss.Fat.{
  Bparam, FatFs, fill_fatfs, front_sects, cluster_sect, done, more, read_chunks, read_ranges,
}
use boss.Fat.Layout.{IsSound, total_sects, cluster_sect_bounds}

-- A floppy disk of 1.44 MB.
abbrev floppy : Bparam
floppy = record {
  jmp0 = 235;
  jmp2 = 144;
  sect_bytes = 512;
  cluster_size = 1;
  reserved_sect = 1;
  num_fats = 2;
  num_dirent = 224;
  num_sectors = 2880;
  fat_size = 9;
  num_sectors32 = 0;
  fat_size32 = 0;
  root_clust = 0;
}

abbrev volume : FatFs
volume = fill_fatfs floppy 0 (λ i. i)

first_cluster : cluster_sect volume 2 ≡ 33
unfolding cluster_sect fill_fatfs
first_cluster = refl

two_reads : read_ranges 127 200 ≡ some (more 0 127 (more 127 73 done))
unfolding read_ranges read_chunks
two_reads = refl

floppy-IsSound : IsSound floppy
unfolding front_sects
floppy-IsSound = record { some_size = omega arith; fits = omega arith; small = omega arith }

cluster_sect_bounds_example :
    (0 + front_sects floppy ≤ cluster_sect volume 7)
    × (cluster_sect volume 7 + 1 ≤ 0 + total_sects floppy)
    × (cluster_sect volume 8 ≡ cluster_sect volume 7 + 1)
unfolding fill_fatfs
cluster_sect_bounds_example =
    cluster_sect_bounds floppy 0 (λ i. i) floppy-IsSound 7 (omega arith) (omega arith)
