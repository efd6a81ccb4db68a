-- ===== src/Partitions/Ebr.antt =====
-- The extended boot records of src/part.c, and a round of `read_partitions` at one of them.
use boss.Prelude.{
  ℕ, suc, ◌+◌, ◌<◌, ◌≤◌, ◌*◌, ◌%◌, ◌^◌, ◌≡◌, refl, ◌∙◌, ap, Bool, true, false, inl, inr, ◌⊎◌,
  Bool-cases, Option, none, some, List, [], ◌∷◌, ◌++◌, length, length-append, ltb, ◌==◌, ◌&&◌, ◌||◌,
  not, if◌then◌else◌, arith,
}
use boss.Partitions.{
  PartRecord, Partition, records_from, is_extended, entry, scan_records, read_chain,
}
use boss.Partitions.Primary.{attr_of}

-- A sector that can be read and has the boot signature.
abbrev pub IsSigned : (ℕ → Option (ℕ → ℕ)) → ℕ → (ℕ → ℕ) → Type 0
IsSigned disk sidx s = (disk sidx ≡ some s) × (s 510 + s 511 * 256 ≡ 43605)

-- A record of a partition that is not an extended one.
abbrev pub IsUsed : PartRecord → Type 0
IsUsed r = ((r.type == 0) ≡ false) × (is_extended r ≡ false)

-- The partition of a record in an extended boot record, relative to the first of these, at `base`.
abbrev pub logical_of : ℕ → PartRecord → Partition
logical_of base r = record {
  start_sect = (base + r.first_lba) % 2 ^ 32;
  size_sect = r.nsect_lba;
  attr = attr_of r;
}

entry-logical_of :
    (base sidx : ℕ) (r : PartRecord) → 0 < sidx → entry base sidx r ≡ logical_of base r
unfolding entry
entry-logical_of base sidx r p =
    let start : r.first_lba + base ≡ base + r.first_lba = omega arith in
    let inside : (sidx == 0) ≡ false = ground arith in
    let none_more : attr_of r + 0 ≡ attr_of r = omega arith in rw (start, inside, none_more) refl

-- The chain of boot records from the one at a sector: each has a logical partition, and then nothing
-- or the place of the next boot record, from the first one on.
pub data EbrChain (disk : ℕ → Option (ℕ → ℕ)) (base : ℕ) : ℕ → List Partition → Type 0 where
  last :
      {sidx : ℕ} {s : ℕ → ℕ} {r r' : PartRecord}
      → 0 < sidx
      → IsSigned disk sidx s
      → records_from s 446 2 ≡ r ∷ r' ∷ []
      → IsUsed r
      → (r'.type == 0) ≡ true
      → EbrChain disk base sidx (logical_of base r ∷ [])
  link :
      {sidx : ℕ} {s : ℕ → ℕ} {r r' : PartRecord} {ps : List Partition}
      → 0 < sidx
      → IsSigned disk sidx s
      → records_from s 446 2 ≡ r ∷ r' ∷ []
      → IsUsed r
      → (r'.type == 0) ≡ false
      → is_extended r' ≡ true
      → EbrChain disk base (base + r'.first_lba) ps
      → EbrChain disk base sidx (logical_of base r ∷ ps)

pub ebr-positive :
    (disk : ℕ → Option (ℕ → ℕ)) (base sidx : ℕ) (ps : List Partition)
    → EbrChain disk base sidx ps
    → (0 < sidx) × (0 < length ps)
ebr-positive disk base sidx ps (last p s e u z) = (p, omega arith)
ebr-positive disk base sidx ps (link p s e u z x more) = (p, omega arith)

-- The end of a round of `read_partitions`, with what the records gave.
abbrev pub decided :
    ℕ
    → ℕ
    → (ℕ → Option (ℕ → ℕ))
    → ℕ
    → List Partition
    → ℕ × List Partition
    → Option (Option (List Partition))
decided fuel limit disk first parts (next, found) =
    elim (ltb 0 next && (limit == 0 || ltb (length (parts ++ found)) limit))
      as (λ b. Option (Option (List Partition))) [
        | false ↦ some (some (parts ++ found))
        | true ↦ read_chain fuel disk limit true first next (parts ++ found)
      ]

-- A round at a sector that can be read, with the tests for the first one and the signature.
abbrev round_of :
    ℕ
    → ℕ
    → (ℕ → Option (ℕ → ℕ))
    → Bool
    → ℕ
    → ℕ
    → List Partition
    → (ℕ → ℕ)
    → Bool
    → Bool
    → Option (Option (List Partition))
round_of fuel limit disk ext first sidx parts s mbr signed =
    let first' = if not mbr && (first == 0) then sidx else first in
    let num_rec = if mbr then 4 else 2 in
    elim signed as (λ b. Option (Option (List Partition))) [
      | false ↦ some none
      | true ↦
          decided fuel limit disk first' parts
            (scan_records ext first' (records_from s 446 num_rec) sidx)
    ]

pub some_round :
    (fuel limit : ℕ) (disk : ℕ → Option (ℕ → ℕ)) (ext : Bool) (first sidx : ℕ)
    (parts : List Partition) (s : ℕ → ℕ) (mbr : Bool)
    → IsSigned disk sidx s
    → (sidx == 0) ≡ mbr
    → read_chain (suc fuel) disk limit ext first sidx parts
      ≡ round_of fuel limit disk ext first sidx parts s mbr true
unfolding read_chain
some_round fuel limit disk ext first sidx parts s mbr (at, sig) inside =
    let signature : (s 510 + s 511 * 256 == 43605) ≡ true = ground (arith, sig) in
    ap
      (λ o. elim o as (λ o. Option (Option (List Partition))) [
        | none ↦ some none
        | some s ↦
            round_of fuel limit disk ext first sidx parts s (sidx == 0)
              (s 510 + s 511 * 256 == 43605)
      ])
      at
    ∙ ap (λ b. round_of fuel limit disk ext first sidx parts s b (s 510 + s 511 * 256 == 43605))
        inside
    ∙ ap (λ b. round_of fuel limit disk ext first sidx parts s mbr b) signature

-- A round at an extended boot record: `first` is what `first_ebr_offs` was.
pub ebr_round :
    (fuel limit : ℕ) (disk : ℕ → Option (ℕ → ℕ)) (ext : Bool) (first base sidx : ℕ)
    (parts : List Partition) (s : ℕ → ℕ)
    → IsSigned disk sidx s
    → 0 < sidx
    → ((first ≡ base) × (0 < base)) ⊎ ((first ≡ 0) × (sidx ≡ base))
    → read_chain (suc fuel) disk limit ext first sidx parts
      ≡ decided fuel limit disk base parts (scan_records ext base (records_from s 446 2) sidx)
ebr_round fuel limit disk ext first base sidx parts s sound p f =
    let inside : (sidx == 0) ≡ false = ground (arith, p) in
    some_round fuel limit disk ext first sidx parts s false sound inside
    ∙ ap (λ b. decided fuel limit disk b parts (scan_records ext b (records_from s 446 2) sidx))
        (elim f [
          | inl (e, q) ↦ let known : (first == 0) ≡ false = ground (arith, e, q) in rw known e
          | inr (e, q) ↦ let unknown : (first == 0) ≡ true = ground (arith, e) in rw unknown q
        ])

-- What the records of an extended boot record give.
pub scan_last :
    (base sidx : ℕ) (r r' : PartRecord)
    → 0 < sidx
    → IsUsed r
    → (r'.type == 0) ≡ true
    → scan_records true base (r ∷ r' ∷ []) sidx ≡ (0, logical_of base r ∷ [])
unfolding scan_records
scan_last base sidx r r' p (used, flat) e =
    rw (used, flat, e) (ap (λ x. (0, x ∷ [])) (entry-logical_of base sidx r p))

pub scan_link :
    (base sidx : ℕ) (r r' : PartRecord)
    → 0 < sidx
    → IsUsed r
    → (r'.type == 0) ≡ false
    → is_extended r' ≡ true
    → scan_records true base (r ∷ r' ∷ []) sidx ≡ (base + r'.first_lba, logical_of base r ∷ [])
unfolding scan_records
scan_link base sidx r r' p (used, flat) e x =
    rw (used, flat, e, x) (ap (λ y. (base + r'.first_lba, y ∷ [])) (entry-logical_of base sidx r p))

-- The loop goes on where there is a next sector and room for at least one more partition.
pub goes_on :
    (fuel limit : ℕ) (disk : ℕ → Option (ℕ → ℕ)) (base : ℕ) (parts : List Partition) (next : ℕ)
    (found : List Partition) (more : ℕ)
    → 0 < next
    → 0 < more
    → (limit ≡ 0) ⊎ (length parts + (length found + more) ≤ limit)
    → decided fuel limit disk base parts (next, found)
      ≡ read_chain fuel disk limit true base next (parts ++ found)
goes_on fuel limit disk base parts next found more p m room =
    let sector : ltb 0 next ≡ true = ground (arith, p) in
    let fits : (limit == 0 || ltb (length (parts ++ found)) limit) ≡ true = elim room [
      | inl z ↦ let no_table : (limit == 0) ≡ true = ground (arith, z) in rw no_table refl
      | inr l ↦
          let below : ltb (length (parts ++ found)) limit ≡ true =
            ground (arith, length-append parts found, l, m) in
          elim (Bool-cases (limit == 0)) [ inl z ↦ rw z refl | inr z ↦ rw (z, below) refl ]
    ] in
    ap
      (λ b. elim b as (λ b. Option (Option (List Partition))) [
        | false ↦ some (some (parts ++ found))
        | true ↦ read_chain fuel disk limit true base next (parts ++ found)
      ])
      (ap (λ c. c && (limit == 0 || ltb (length (parts ++ found)) limit)) sector ∙ fits)
