-- ===== src/Fat/Layout.antt =====
-- Where src/fsfat.c puts the tables and the clusters of a volume.
use native.Mathlib.Nat.{div-mul-le_self, div-le_self, add-mul, mul-le-mul_right}
use boss.Prelude.{
  ℕ, zero, suc, ◌+◌, ◌-◌, ◌*◌, ◌%◌, ◌^◌, ◌≤◌, ◌<◌, ◌≡◌, refl, Bool, true, inl, inr, Bool-cases,
  some, ltb, ◌==◌, ==_iff, if◌then◌else◌, all_below, all_below_sound, arith,
}
use boss.Fat.{
  Bparam, FatFs, front_sects, fill_fatfs, find_shift, cluster_sect, Reads, done, more, read_chunks,
  read_ranges,
}

-- The sectors of the whole volume.
abbrev pub total_sects : Bparam → ℕ
total_sects b = if b.num_sectors == 0 then b.num_sectors32 else b.num_sectors

-- A boot sector whose numbers fit together.
pub record IsSound (b : Bparam) : Type 0 where
  pub some_size : 0 < b.cluster_size
  pub fits : front_sects b ≤ total_sects b
  pub small : total_sects b < 2 ^ 32

module _ (b : Bparam) (start : ℕ) (fat : ℕ → ℕ) (ok : IsSound b) where
  abbrev volume : FatFs
  volume = fill_fatfs b start fat

  data_sects : volume.num_data_sect ≡ total_sects b - front_sects b
  unfolding fill_fatfs
  data_sects =
      let low : front_sects b % 2 ^ 32 ≡ front_sects b = omega (arith, ok.fits, ok.small) in
      rw low (omega (arith, ok.fits, ok.small))

  same_fields : (volume.cluster_size ≡ b.cluster_size) × (volume.start_sect ≡ start)
  unfolding fill_fatfs
  same_fields = (refl, refl)

  first_data : volume.first_data_sect ≡ front_sects b
  unfolding fill_fatfs
  first_data = omega (arith, ok.fits, ok.small)

  clusters_fit : volume.num_clusters * b.cluster_size ≤ total_sects b - front_sects b
  unfolding fill_fatfs
  clusters_fit = rw (← data_sects) (div-mul-le_self volume.num_data_sect b.cluster_size)

  in_range :
      (addr : ℕ)
      → 2 ≤ addr
      → addr ≤ volume.num_clusters + 2
      → (addr + 2 ^ 32 - 2) % 2 ^ 32 ≡ addr - 2
  unfolding fill_fatfs
  in_range addr h k =
      let few : volume.num_clusters ≤ volume.num_data_sect =
        div-le_self volume.num_data_sect b.cluster_size in
      omega (arith, few, data_sects, ok.small)

  -- On a volume whose numbers fit together, the sectors of every cluster that it has lie behind its
  -- tables and inside the volume, and the next cluster begins where they end.
  pub cluster_sect_bounds :
      (addr : ℕ)
      → 2 ≤ addr
      → addr < volume.num_clusters + 2
      → (start + front_sects b ≤ cluster_sect volume addr)
        × (cluster_sect volume addr + b.cluster_size ≤ start + total_sects b)
        × (cluster_sect volume (addr + 1) ≡ cluster_sect volume addr + b.cluster_size)
  unfolding cluster_sect
  cluster_sect_bounds addr h k =
      let room : (addr - 2 + 1) * b.cluster_size ≤ volume.num_clusters * b.cluster_size =
        mul-le-mul_right b.cluster_size (omega arith) in
      let one_more : (addr - 2 + 1) * b.cluster_size
          ≡ (addr - 2) * b.cluster_size + 1 * b.cluster_size =
        add-mul (addr - 2) 1 b.cluster_size in
      let next : addr + 1 - 2 ≡ addr - 2 + 1 = omega arith in
      let cs : volume.cluster_size ≡ b.cluster_size = same_fields.0 in
      let st : volume.start_sect ≡ start = same_fields.1 in
      rw
        (
          cs,
          st,
          in_range addr h (omega arith),
          in_range (addr + 1) (omega arith) (omega arith),
          first_data,
          next,
        )
        (omega (arith, room, one_more, clusters_fit, ok.fits))

-- For a cluster of 1, 2, 4, ... or 128 sectors the shift and the mask are those of its bytes.
shift_row : ℕ → Bool
shift_row k = find_shift 18 (2 ^ k * 512) 0 == k + 9

shift_table : all_below 8 shift_row ≡ true
unfolding all_below shift_row find_shift
shift_table = refl

pub clust_shift_lem :
    (b : Bparam) (start : ℕ) (fat : ℕ → ℕ) (k : ℕ)
    → k < 8
    → b.cluster_size ≡ 2 ^ k
    → (fill_fatfs b start fat).clust_shift ≡ k + 9
unfolding fill_fatfs shift_row
clust_shift_lem b start fat k h e =
    rw e ((==_iff _ _).0 (all_below_sound 8 shift_row k h shift_table))

-- The ranges cover the sectors from one number to another, in order and without a gap, and none is
-- empty or longer than the limit.
pub data Covers (limit : ℕ) : ℕ → ℕ → Reads → Type 0 where
  nothing : {a b : ℕ} → a ≡ b → Covers limit a b done
  next :
      {a b n : ℕ} {rest : Reads}
      → 0 < n
      → n ≤ limit
      → Covers limit (a + n) b rest
      → Covers limit a b (more a n rest)

read_chunks-Covers :
    (fuel limit size from : ℕ)
    → 0 < limit
    → from ≤ size
    → size - from < fuel
    → (r : Reads) × (read_chunks fuel limit size from ≡ some r) × Covers limit from size r
unfolding read_chunks
read_chunks-Covers zero limit size from h k f = absurd (omega arith)
read_chunks-Covers (suc fuel) limit size from h k f = elim (Bool-cases (ltb from size)) [
  | inr e ↦ (done, rw (e, read_chunks), nothing (ground arith))
  | inl e ↦
      let left : ℕ = size - from in
      let count = if ltb limit left then limit else left in
      let some_left : 0 < count = ground arith in
      let rest =
        read_chunks-Covers fuel limit size (from + count) h (ground arith) (ground arith) in
      (more from count rest.0, rw (e, rest.1, read_chunks), next some_left (ground arith) rest.2)
]

-- If the buffer below 0xa0000 holds at least one sector, then reading a table of any size ends, and
-- the ranges that are read are all of its sectors, in order, each once, and at most as many at a time
-- as the buffer holds.
pub read_ranges-Covers :
    (limit size : ℕ)
    → 0 < limit
    → (r : Reads) × (read_ranges limit size ≡ some r) × Covers limit 0 size r
unfolding read_ranges
read_ranges-Covers limit size h =
    read_chunks-Covers (size + 1) limit size 0 h (omega arith) (omega arith)
