-- ===== src/Partitions/Tests.antt =====
-- Partition tables of src/part.c on concrete sectors, and the theorem at such an input.
use boss.Prelude.{
  ◌≡◌, refl, ℕ, Option, some, none, List, [], ◌∷◌, ◌++◌, inr, arith, false, ◌==◌, if◌then◌else◌,
  update,
}
use boss.Partitions.{PartRecord, Partition, entry, scan_records, records_from, read_partitions}
use boss.Partitions.Primary.{in_use}
use boss.Partitions.Ebr.{EbrChain, last, link}
use boss.Partitions.Chain.{read_partitions-EbrChain}

-- A sector with the signature, and an active partition of type 12 at sector 63 in its second record.
abbrev sector : ℕ → ℕ
sector = update (update (update (update (update (λ i. 0) 510 85) 511 170) 462 128) 466 12) 470 63

abbrev disk : ℕ → Option (ℕ → ℕ)
disk sidx = if sidx == 0 then some sector else none

-- A primary partition behind the record of the extended one is not marked as primary, since the
-- index of the next sector is set by then.
abbrev behind_extended : List PartRecord
behind_extended =
    record { stat = 0; type = 5; first_lba = 100; nsect_lba = 50 }
    ∷ record { stat = 0; type = 12; first_lba = 200; nsect_lba = 50 }
    ∷ []

unmarked_primary :
    scan_records false 0 behind_extended 0
    ≡ (100, record { start_sect = 200; size_sect = 50; attr = 12 } ∷ [])
unfolding scan_records entry
unmarked_primary = refl

-- Two boot records in an extended partition at sector 100, the second one at sector 120.
abbrev signed : ℕ → ℕ
signed = update (update (λ i. 0) 510 85) 511 170

abbrev mbr : ℕ → ℕ
mbr = update (update (update (update signed 450 12) 454 63) 466 5) 470 100

abbrev first_ebr : ℕ → ℕ
first_ebr = update (update (update (update signed 450 6) 454 1) 466 5) 470 20

abbrev last_ebr : ℕ → ℕ
last_ebr = update (update signed 450 6) 454 1

abbrev chained : ℕ → Option (ℕ → ℕ)
chained sidx =
    if sidx == 0
    then some mbr
    else if sidx == 100
    then some first_ebr
    else if sidx == 120
    then some last_ebr
    else none

abbrev no_part : PartRecord
no_part = record { stat = 0; type = 0; first_lba = 0; nsect_lba = 0 }

abbrev record_at : ℕ → ℕ → PartRecord
record_at type lba = record { stat = 0; type = type; first_lba = lba; nsect_lba = 0 }

abbrev logical : List Partition
logical =
    record { start_sect = 101; size_sect = 0; attr = 6 }
    ∷ record { start_sect = 101; size_sect = 0; attr = 6 }
    ∷ []

logical-EbrChain : EbrChain chained 100 100 logical
unfolding records_from
logical-EbrChain =
    link {s = first_ebr} {r = record_at 6 1} {r' = record_at 5 20} (omega arith) (refl, refl) refl
      (refl, refl) refl refl
      (last {s = last_ebr} {r = record_at 6 1} {r' = no_part} (omega arith) (refl, refl) refl
        (refl, refl) refl)

-- Both logical partitions are found; the second is put at sector 101, where its boot record at sector
-- 120 says that it begins one sector further on.
read_partitions-EbrChain_example :
    read_partitions 3 chained 8 ≡ some (some (in_use (record_at 12 63 ∷ []) ++ logical))
unfolding records_from
read_partitions-EbrChain_example =
    read_partitions-EbrChain 3 8 chained mbr (record_at 12 63 ∷ []) (record_at 5 100)
      (no_part ∷ no_part ∷ []) logical (refl, refl) refl (refl, tt) refl (refl, (refl, tt))
      logical-EbrChain (omega arith) (inr (omega arith))
