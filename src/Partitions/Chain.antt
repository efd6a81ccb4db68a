-- ===== src/Partitions/Chain.antt =====
-- Disks with a chain of extended partitions, as src/part.c reads them.
use boss.Prelude.{
  ℕ, zero, suc, ◌+◌, ◌<◌, ◌≤◌, ◌≡◌, refl, ◌∙◌, ap, true, false, inl, inr, ◌⊎◌, Bool-cases, Option,
  some, List, [], ◌∷◌, ◌++◌, append_assoc, length, length-append, ◌==◌, arith,
}
use boss.Partitions.{
  PartRecord, Partition, records_from, is_extended, entry, scan_records, read_chain,
  read_partitions,
}
use boss.Partitions.Primary.{IsFlat, in_use, entry-primary_of}
use boss.Partitions.Ebr.{
  IsSigned, logical_of, ebr-positive, decided, some_round, ebr_round, scan_last, scan_link, goes_on,
  EbrChain, last, link,
}

read_chain-EbrChain :
    (fuel limit : ℕ) (disk : ℕ → Option (ℕ → ℕ)) (first base sidx : ℕ) (parts ps : List Partition)
    → EbrChain disk base sidx ps
    → ((first ≡ base) × (0 < base)) ⊎ ((first ≡ 0) × (sidx ≡ base))
    → length ps ≤ fuel
    → (limit ≡ 0) ⊎ (length parts + length ps ≤ limit)
    → read_chain fuel disk limit true first sidx parts ≡ some (some (parts ++ ps))
read_chain-EbrChain zero limit disk first base sidx parts ps chain f enough room =
    absurd (let pos = ebr-positive disk base sidx ps chain in omega (arith, pos.1))
read_chain-EbrChain (suc fuel) limit disk first base sidx parts ps
      (last {s = s} {r = r} {r' = r'} p sound recs used e) f enough room =
    ebr_round fuel limit disk true first base sidx parts s sound p f
    ∙ ap (decided fuel limit disk base parts)
        (ap (λ l. scan_records true base l sidx) recs ∙ scan_last base sidx r r' p used e)
read_chain-EbrChain (suc fuel) limit disk first base sidx parts _
      (link {s = s} {r = r} {r' = r'} {ps = ps} p sound recs used e x more) f enough room =
    let found = parts ++ logical_of base r ∷ [] in
    let next = base + r'.first_lba in
    let b0 : 0 < base = elim f [ inl (q, b) ↦ b | inr (q, b) ↦ omega (arith, b, p) ] in
    let ones = length-append parts (logical_of base r ∷ []) in
    let pos = ebr-positive disk base next ps more in
    let rest =
      read_chain-EbrChain fuel limit disk base base next found ps more (inl (refl, b0))
        (omega arith) (elim room [ inl z ↦ inl z | inr l ↦ inr (omega (arith, ones, l)) ]) in
    ebr_round fuel limit disk true first base sidx parts s sound p f
    ∙ ap (decided fuel limit disk base parts)
        (ap (λ l. scan_records true base l sidx) recs ∙ scan_link base sidx r r' p used e x)
    ∙ goes_on fuel limit disk base parts next (logical_of base r ∷ []) (length ps) pos.0 pos.1
        (elim room [ inl z ↦ inl z | inr l ↦ inr (omega (arith, l)) ])
    ∙ rest
    ∙ ap (λ l. some (some l)) (append_assoc parts (logical_of base r ∷ []) ps)

-- No record is in use.
abbrev pub AllEmpty : List PartRecord → Type 0
AllEmpty [] = Unit
AllEmpty (r ∷ rs) = ((r.type == 0) ≡ true) × AllEmpty rs

scan_empty :
    (rs : List PartRecord) (sidx : ℕ) → AllEmpty rs → scan_records false 0 rs sidx ≡ (sidx, [])
unfolding scan_records
scan_empty [] sidx h = refl
scan_empty (r ∷ rs) sidx (e, h) = rw e (scan_empty rs sidx h)

scan_mbr :
    (pre : List PartRecord) (x : PartRecord) (post : List PartRecord)
    → IsFlat pre
    → is_extended x ≡ true
    → AllEmpty post
    → scan_records false 0 (pre ++ x ∷ post) 0 ≡ (x.first_lba, in_use pre)
unfolding scan_records
scan_mbr [] x post h e empty =
    let used : (x.type == 0) ≡ false = ground (arith, e) in
    rw (used, e) (scan_empty post (0 + x.first_lba) empty ∙ ap (λ n. (n, [])) (omega arith))
scan_mbr (r ∷ pre) x post (flat, h) e empty = elim (Bool-cases (r.type == 0)) [
  | inl z ↦ rw z (scan_mbr pre x post h e empty)
  | inr z ↦
      rw (z, flat)
        (ap (λ q. (q.0, entry 0 0 r ∷ q.1)) (scan_mbr pre x post h e empty)
          ∙ ap (λ y. (x.first_lba, y ∷ in_use pre)) (entry-primary_of r))
]

-- On a disk with primary partitions, one extended partition behind them and a chain of boot records
-- in it, `read_partitions` gives the primary ones, each with the start and size of its record, and
-- then, for each boot record of the chain, the partition of its first record with its size, provided
-- that the table has room for all of them or there is no table. One round for each boot record is
-- enough. The start it gives for each of these is the number in the record plus the place of the first
-- boot record of the chain, also where the number is relative to another one.
pub read_partitions-EbrChain :
    (fuel limit : ℕ) (disk : ℕ → Option (ℕ → ℕ)) (s : ℕ → ℕ) (pre : List PartRecord)
    (x : PartRecord) (post : List PartRecord) (ps : List Partition)
    → IsSigned disk 0 s
    → records_from s 446 4 ≡ pre ++ x ∷ post
    → IsFlat pre
    → is_extended x ≡ true
    → AllEmpty post
    → EbrChain disk x.first_lba x.first_lba ps
    → length ps < fuel
    → (limit ≡ 0) ⊎ (length (in_use pre) + length ps ≤ limit)
    → read_partitions fuel disk limit ≡ some (some (in_use pre ++ ps))
unfolding read_partitions
read_partitions-EbrChain zero limit disk s pre x post ps sound recs h e empty chain enough room =
    absurd (omega arith)
read_partitions-EbrChain (suc fuel) limit disk s pre x post ps sound recs h e empty chain enough
      room =
    let pos = ebr-positive disk x.first_lba x.first_lba ps chain in
    let rest =
      read_chain-EbrChain fuel limit disk 0 x.first_lba x.first_lba (in_use pre) ps chain
        (inr (refl, refl)) (omega arith) room in
    some_round fuel limit disk false 0 0 [] s true sound refl
    ∙ ap (decided fuel limit disk 0 [])
        (ap (λ l. scan_records false 0 l 0) recs ∙ scan_mbr pre x post h e empty)
    ∙ goes_on fuel limit disk 0 [] x.first_lba (in_use pre) (length ps) pos.0 pos.1
        (elim room [ inl z ↦ inl z | inr l ↦ inr (omega (arith, l)) ])
    ∙ rest
