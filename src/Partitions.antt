-- ===== src/Partitions.antt =====
-- Partition tables, src/part.c: the records of the boot sector and of the chain of extended ones. The
-- disk is a parameter: `none` is a sector that cannot be read.
pub mod Primary
pub mod Ebr
pub mod Chain
mod Tests
use boss.Prelude.{
  ℕ, zero, suc, ◌+◌, ◌-◌, ◌*◌, ◌/◌, ◌%◌, ◌^◌, Bool, true, false, Option, none, some, List, [], ◌∷◌,
  ◌++◌, ltb, leb, ◌==◌, ◌&&◌, ◌||◌, not, if◌then◌else◌, length,
}

-- The fields of `struct part_record` that are read.
pub record PartRecord : Type 0 where
  pub stat : ℕ
  pub type : ℕ
  pub first_lba : ℕ
  pub nsect_lba : ℕ

pub record Partition : Type 0 where
  pub start_sect : ℕ
  pub size_sect : ℕ
  pub attr : ℕ

-- Four bytes of a sector, the lowest first.
abbrev pub word_at : (ℕ → ℕ) → ℕ → ℕ
word_at s i = s i + s (i + 1) * 2 ^ 8 + s (i + 2) * 2 ^ 16 + s (i + 3) * 2 ^ 24

-- The records of the table at 0x1be, from one on.
unfoldable pub records_from : (ℕ → ℕ) → ℕ → ℕ → List PartRecord
records_from s offs zero = []
records_from s offs (suc n) =
    record {
      stat = s offs;
      type = s (offs + 4);
      first_lba = word_at s (offs + 8);
      nsect_lba = word_at s (offs + 12);
    }
    ∷ records_from s (offs + 16) n

-- PTYPE_EXT and PTYPE_EXT_LBA.
abbrev pub is_extended : PartRecord → Bool
is_extended r = r.type == 5 || r.type == 15

-- The entry for a record. The attributes are different bits, so that a sum sets them; the bit for a
-- primary partition is set where `sidx` is 0 when the record is reached.
unfoldable pub entry : ℕ → ℕ → PartRecord → Partition
entry first_ebr_offs sidx r = record {
  start_sect = (r.first_lba + first_ebr_offs) % 2 ^ 32;
  size_sect = r.nsect_lba;
  attr = r.type + (if leb 128 r.stat then 2 ^ 9 else 0) + (if sidx == 0 then 2 ^ 10 else 0);
}

-- The loop over the records of a sector, where `extended` is `num_bootrec > 0`: the sector to go on
-- with, 0 for none, and the partitions found.
pub scan_records : Bool → ℕ → List PartRecord → ℕ → ℕ × List Partition
scan_records extended first_ebr_offs [] sidx = (sidx, [])
scan_records extended first_ebr_offs (r ∷ rs) sidx =
    let skip = scan_records extended first_ebr_offs rs sidx in
    let jump = scan_records extended first_ebr_offs rs (first_ebr_offs + r.first_lba) in
    if r.type == 0
    then (if extended then (0, []) else skip)
    else if is_extended r
    then jump
    else (skip.0, entry first_ebr_offs sidx r ∷ skip.1)

-- The loop of `read_partitions`. `limit` is `ptabsz`, or 0 where there is no table; the outer `none`
-- stands for a chain that is longer than `fuel`, the inner one for -1.
pub read_chain :
    ℕ → (ℕ → Option (ℕ → ℕ)) → ℕ → Bool → ℕ → ℕ → List Partition → Option (Option (List Partition))
read_chain zero disk limit extended first_ebr_offs sidx parts = none
read_chain (suc fuel) disk limit extended first_ebr_offs sidx parts =
    let first' = if not (sidx == 0) && (first_ebr_offs == 0) then sidx else first_ebr_offs in
    elim (disk sidx) [
      | none ↦ some none
      | some s ↦
          let num_rec = if sidx == 0 then 4 else 2 in
          let (next, found) = scan_records extended first' (records_from s 446 num_rec) sidx in
          let parts' = parts ++ found in
          elim (s 510 + s 511 * 256 == 43605) [
            | false ↦ some none
            | true ↦ elim (ltb 0 next && (limit == 0 || ltb (length parts') limit)) [
              | false ↦ some (some parts')
              | true ↦ read_chain fuel disk limit true first' next parts'
            ]
          ]
    ]

pub read_partitions : ℕ → (ℕ → Option (ℕ → ℕ)) → ℕ → Option (Option (List Partition))
read_partitions fuel disk ptabsz = read_chain fuel disk ptabsz false 0 0 []
