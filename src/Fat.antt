-- ===== src/Fat.antt =====
-- The volume of src/fsfat.c: its layout from the boot sector, the allocation table and the clusters.
-- The boot device is a parameter: `disk sector count` is what reading that many sectors gives.
pub mod Layout
pub mod Table
pub mod Chain
mod Tests
use boss.Prelude.{
  ℕ, zero, suc, ◌+◌, ◌-◌, ◌*◌, ◌/◌, ◌%◌, ◌^◌, Bool, true, false, Option, none, some, ltb, leb, ◌==◌,
  ◌&&◌, ◌||◌, not, if◌then◌else◌,
}

pub data FatType : Type 0 where
  fat12 : FatType
  fat16 : FatType
  fat32 : FatType
  exfat : FatType

-- `struct bparam`, and of `struct bparam_ext32` the two fields that the layout takes.
pub record Bparam : Type 0 where
  pub jmp0 : ℕ
  pub jmp2 : ℕ
  pub sect_bytes : ℕ
  pub cluster_size : ℕ
  pub reserved_sect : ℕ
  pub num_fats : ℕ
  pub num_dirent : ℕ
  pub num_sectors : ℕ
  pub fat_size : ℕ
  pub num_sectors32 : ℕ
  pub fat_size32 : ℕ
  pub root_clust : ℕ

-- Numbers of two and four bytes, the lowest first.
unfoldable pub u16_at : (ℕ → ℕ) → ℕ → ℕ
u16_at mem i = mem i + mem (i + 1) * 2 ^ 8

pub u32_at : (ℕ → ℕ) → ℕ → ℕ
u32_at mem i = mem i + mem (i + 1) * 2 ^ 8 + mem (i + 2) * 2 ^ 16 + mem (i + 3) * 2 ^ 24

-- The fields at their offsets in the packed structures.
pub read_bparam : (ℕ → ℕ) → Bparam
read_bparam sect = record {
  jmp0 = sect 0;
  jmp2 = sect 2;
  sect_bytes = u16_at sect 11;
  cluster_size = sect 13;
  reserved_sect = u16_at sect 14;
  num_fats = sect 16;
  num_dirent = u16_at sect 17;
  num_sectors = u16_at sect 19;
  fat_size = u16_at sect 22;
  num_sectors32 = u32_at sect 32;
  fat_size32 = u32_at sect 36;
  root_clust = u32_at sect 44;
}

-- `struct fatfs`; the label and the root directory are left out.
pub record FatFs : Type 0 where
  pub type : FatType
  pub start_sect : ℕ
  pub size : ℕ
  pub cluster_size : ℕ
  pub fat_size : ℕ
  pub fat_sect : ℕ
  pub root_sect : ℕ
  pub root_size : ℕ
  pub first_data_sect : ℕ
  pub num_data_sect : ℕ
  pub num_clusters : ℕ
  pub clust_mask : ℕ
  pub clust_shift : ℕ
  pub fat : ℕ → ℕ

pub type_of : ℕ → FatType
type_of num_clusters =
    if ltb num_clusters 4085
    then fat12
    else if ltb num_clusters 65525
    then fat16
    else if ltb num_clusters 268435445
    then fat32
    else exfat

-- The loop that finds the shift: at most `fuel` rounds from `shift` on.
pub find_shift : ℕ → ℕ → ℕ → ℕ
find_shift zero bytes shift = shift
find_shift (suc fuel) bytes shift = elim (ltb (2 ^ shift) bytes) [
  | true ↦ find_shift fuel bytes (shift + 1)
  | false ↦ shift
]

-- What `fsfat_create` makes of the boot sector; `div_error` is the division by a cluster size of 0.
pub data Created : Type 0 where
  refused : Created
  div_error : Created
  created : FatFs → Created

-- The sectors in front of the clusters: reserved ones, tables and root directory.
pub front_sects : Bparam → ℕ
front_sects b =
    let fat_size = if b.fat_size == 0 then b.fat_size32 else b.fat_size in
    b.reserved_sect + b.num_fats * fat_size + (b.num_dirent * 32 + 511) / 512

-- A cluster has at most 255 sectors, so that 18 rounds find the shift.
pub fill_fatfs : Bparam → ℕ → (ℕ → ℕ) → FatFs
unfolding front_sects
fill_fatfs b start fat =
    let size = if b.num_sectors == 0 then b.num_sectors32 else b.num_sectors in
    let fat_size = if b.fat_size == 0 then b.fat_size32 else b.fat_size in
    let num_data = (size + 2 ^ 32 - front_sects b % 2 ^ 32) % 2 ^ 32 in
    let num_clusters : ℕ = num_data / b.cluster_size in
    let root_sect : ℕ = (b.reserved_sect + fat_size * b.num_fats) % 2 ^ 32 in
    let root_size : ℕ = (b.num_dirent * 32 + 511) / 512 in
    let small = ltb num_clusters 65525 in
    record {
      type = type_of num_clusters;
      start_sect = start;
      size = size;
      cluster_size = b.cluster_size;
      fat_size = fat_size;
      fat_sect = b.reserved_sect;
      root_sect = if small then root_sect else b.root_clust / b.cluster_size;
      root_size = if small then root_size else 0;
      first_data_sect = front_sects b % 2 ^ 32;
      num_data_sect = num_data;
      num_clusters = num_clusters;
      clust_mask = b.cluster_size * 512 - 1;
      clust_shift = find_shift 18 (b.cluster_size * 512) 0;
      fat = fat;
    }

-- The tests of `fsfat_create` on the boot sector; `fat` is the table that it reads afterwards.
pub create_volume : (ℕ → ℕ) → ℕ → (ℕ → ℕ) → Created
create_volume sect start fat =
    let b = read_bparam sect in
    if not (b.jmp0 == 235) || not (b.jmp2 == 144)
    then refused
    else if not (b.sect_bytes == 512)
    then refused
    else if b.cluster_size == 0
    then div_error
    else created (fill_fatfs b start fat)

-- `max_sect_once` for the address of the buffer below 0xa0000.
pub max_sects : ℕ → ℕ
max_sects low_mem_buffer =
    let n : ℕ = (655360 - low_mem_buffer) / 512 in if ltb 127 n then 127 else n

-- The loop that reads the table, and the one for the root directory: the ranges that are read.
pub data Reads : Type 0 where
  done : Reads
  more : ℕ → ℕ → Reads → Reads

pub read_chunks : ℕ → ℕ → ℕ → ℕ → Option Reads
read_chunks zero limit size num_read = none
read_chunks (suc fuel) limit size num_read =
    let left : ℕ = size - num_read in
    let count = if ltb limit left then limit else left in
    elim (ltb num_read size) [
      | false ↦ some done
      | true ↦ elim (read_chunks fuel limit size (num_read + count)) [
        | none ↦ none
        | some rest ↦ some (more num_read count rest)
      ]
    ]

-- All ranges of a table or directory of `size` sectors, each of which takes a round.
pub read_ranges : ℕ → ℕ → Option Reads
read_ranges limit size = read_chunks (size + 1) limit size 0

unfoldable pub read_fat : FatFs → ℕ → ℕ
read_fat fs addr = elim fs.type [
  | fat12 ↦
      let idx : ℕ = (addr + addr / 2) % 2 ^ 32 in
      let res = u16_at fs.fat (idx * 2) in if idx % 2 == 1 then res / 2 ^ 4 else res % 2 ^ 12
  | fat16 ↦ u16_at fs.fat (addr * 2)
  | fat32 ↦ u32_at fs.fat (addr * 4)
  | exfat ↦ u32_at fs.fat (addr * 4)
]

-- The first value that ends a chain.
unfoldable pub end_mark : FatType → ℕ
end_mark fat12 = 4088
end_mark fat16 = 65528
end_mark fat32 = 268435448
end_mark exfat = 268435448

-- `next_cluster`; `none` is -1.
unfoldable pub next_cluster : FatFs → ℕ → Option ℕ
next_cluster fs addr =
    let fatval = read_fat fs addr in
    if fatval == 0 then none else if leb (end_mark fs.type) fatval then none else some fatval

-- A cluster number that is passed on as `uint32_t`.
abbrev pub as_addr : Option ℕ → ℕ
as_addr none = 2 ^ 32 - 1
as_addr (some c) = c

pub find_cluster : FatFs → ℕ → Option ℕ → Option ℕ
find_cluster fs zero clust = clust
find_cluster fs (suc count) clust = elim (next_cluster fs (as_addr clust)) [
  | none ↦ none
  | some c ↦ find_cluster fs count (some c)
]

-- The sector of a cluster.
unfoldable pub cluster_sect : FatFs → ℕ → ℕ
cluster_sect fs addr =
    (addr + 2 ^ 32 - 2) % 2 ^ 32 * fs.cluster_size + fs.first_data_sect + fs.start_sect

unfoldable pub read_cluster : (ℕ → ℕ → Option (ℕ → ℕ)) → FatFs → ℕ → Option (ℕ → ℕ)
read_cluster disk fs addr = disk (cluster_sect fs addr) fs.cluster_size
