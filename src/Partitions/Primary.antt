-- ===== src/Partitions/Primary.antt =====
-- The primary partitions of a disk, as src/part.c reads them.
use boss.Prelude.{
  ℕ, ◌+◌, ◌%◌, ◌^◌, ◌≡◌, refl, false, List, [], ◌∷◌, leb, ◌==◌, if◌then◌else◌, arith,
}
use boss.Partitions.{PartRecord, Partition, is_extended, entry}

-- No record is that of an extended partition.
abbrev pub IsFlat : List PartRecord → Type 0
IsFlat [] = Unit
IsFlat (r ∷ rs) = (is_extended r ≡ false) × IsFlat rs

-- The type, with bit 9 for an active partition.
abbrev pub attr_of : PartRecord → ℕ
attr_of r = r.type + (if leb 128 r.stat then 512 else 0)

-- The partition of a record in the first sector: at the sector it names, with its size, and with bit
-- 10, for a primary one.
abbrev pub primary_of : PartRecord → Partition
primary_of r = record {
  start_sect = r.first_lba % 2 ^ 32;
  size_sect = r.nsect_lba;
  attr = attr_of r + 1024;
}

-- The partitions of the records that are in use.
abbrev pub in_use : List PartRecord → List Partition
in_use [] = []
in_use (r ∷ rs) = if r.type == 0 then in_use rs else primary_of r ∷ in_use rs

pub entry-primary_of : (r : PartRecord) → entry 0 0 r ≡ primary_of r
unfolding entry
entry-primary_of r = let start : r.first_lba + 0 ≡ r.first_lba = omega arith in rw start refl
