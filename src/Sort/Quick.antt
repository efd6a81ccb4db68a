-- ===== src/Sort/Quick.antt =====
-- `qsort` of src/libc/stdlib.c sorts items of which no two compare as equal.
use boss.Prelude.{
  ℕ, zero, suc, ◌+◌, ◌-◌, ◌≤◌, ◌≡◌, refl, ◌∙◌, ap, true, false, inl, inr, Bool-cases, some, ℤ, leb,
  ltb, arith,
}
use boss.Sort.{less, swap, partition, choose_pivot, qsort}
use boss.Sort.Insertion.{Sorted, Shuffled, same, qsort-Sorted_few}
use boss.Sort.Partition.{IsParting, partition-IsParted}
use boss.Sort.Shuffling.{Distinct, Distinct-part, Shuffled-Distinct, Shuffled-part}
use boss.Sort.Pivot.{choose_pivot-last}
use boss.Sort.Joining.{split_lem, join-Sorted}

module _ {A : Type 0} (cmp : A → A → ℤ)
    (asymm : (a b : A) → less cmp a b ≡ true → less cmp b a ≡ false)
    (trans : (a b c : A) → less cmp b a ≡ false → less cmp c b ≡ false → less cmp c a ≡ false) where
  qsort_step :
      (fuel base count r : ℕ) (arr parted one : ℕ → A)
      → leb count 1 ≡ false
      → ltb count 4 ≡ false
      → partition cmp fuel base (base + 1) (base + (count - 2)) (choose_pivot cmp base count arr)
        ≡ some (r, parted)
      → qsort cmp fuel base (r - base) (swap base r parted) ≡ some one
      → qsort cmp (suc fuel) base count arr ≡ qsort cmp fuel (r + 1) (count - (r - base) - 1) one
  unfolding qsort
  qsort_step fuel base count r arr parted one more many run run1 =
      rw (more, qsort, many, qsort, run, qsort, run1, qsort) refl

  start-IsParting :
      (base count : ℕ) (arr : ℕ → A)
      → 4 ≤ count
      → less cmp (arr base) (arr (base + (count - 1))) ≡ true
      → Distinct cmp base count arr
      → IsParting cmp asymm base
          (base + count)
          (base + 1)
          (base + 1)
          (base + (count - 2))
          (base + (count - 2))
          arr
  start-IsParting base count arr h e d = record {
    starts = omega arith;
    left_lo = omega arith;
    lo_hi = omega arith;
    hi_right = omega arith;
    right_end = omega arith;
    hi_end = omega arith;
    below = λ k a b. absurd (omega arith);
    above = λ k a b.
        let last : k ≡ base + (count - 1) = omega arith in
        ap (λ i. less cmp (arr base) (arr i)) last ∙ e;
    differ = λ k a b.
        let here : base + 0 ≡ base = omega arith in
        let there : base + (k - base) ≡ k = omega arith in
        let apart = d (k - base) 0 (omega arith) (omega arith) (λ x. omega (arith, x)) in
        rw (here, there) at apart;
  }

  -- With a comparison that is an order, and items of which no two compare as equal, `qsort` ends and
  -- leaves the items in order, by swaps of these items alone; twice the number of items and four is
  -- enough of a limit on the rounds of its loops and calls.
  pub qsort-Sorted :
      (fuel base count : ℕ) (arr : ℕ → A)
      → Distinct cmp base count arr
      → count + count + 4 ≤ fuel
      → (arr' : ℕ → A) × (qsort cmp fuel base count arr ≡ some arr')
        × Sorted cmp asymm trans base count arr'
        × Shuffled base count arr arr'
  unfolding qsort
  qsort-Sorted zero base count arr d f = absurd (omega arith)
  qsort-Sorted (suc fuel) base count arr d f = elim (Bool-cases (ltb count 4)) [
    | inl few ↦ qsort-Sorted_few cmp asymm trans fuel base count arr (ground arith)
    | inr many ↦
        (let m : 4 ≤ count = ground arith in
          let pick = choose_pivot cmp base count arr in
          let chosen = choose_pivot-last cmp asymm trans base count arr m d in
          let apart = Shuffled-Distinct cmp base count arr pick chosen.0 d in
          let (r, parted, run, ok) =
            partition-IsParted cmp asymm fuel (count - 2) base (base + count) (base + 1) (base + 1)
              (base + (count - 2)) (base + (count - 2)) pick pick
              (start-IsParting base count pick m chosen.1 apart) refl same (omega arith)
              (omega arith) in
          let sp = split_lem cmp asymm trans base count r pick parted ok in
          let split = swap base r parted in
          let n1 : ℕ = r - base in
          let n2 : ℕ = count - (r - base) - 1 in
          let whole =
            Shuffled-part base count base count arr pick split (omega arith) (omega arith) chosen.0
              sp.moved in
          let parts = Shuffled-Distinct cmp base count arr split whole d in
          let (one, run1, sorted1, moved1) =
            qsort-Sorted fuel base n1 split
              (Distinct-part cmp base count base n1 split (omega arith) (omega (arith, sp.upto))
                parts)
              (omega (arith, sp.from, sp.upto)) in
          let whole1 =
            Shuffled-part base count base n1 arr split one (omega arith) (omega (arith, sp.upto))
              whole moved1 in
          let parts1 = Shuffled-Distinct cmp base count arr one whole1 d in
          let (two, run2, sorted2, moved2) =
            qsort-Sorted fuel (r + 1) n2 one
              (Distinct-part cmp base count (r + 1) n2 one (omega (arith, sp.from))
                (omega (arith, sp.from, sp.upto)) parts1)
              (omega (arith, sp.from, sp.upto)) in
          let some_more : leb count 1 ≡ false = ground arith in
          (
            two,
            qsort_step fuel base count r arr parted one some_more many run run1 ∙ run2,
            join-Sorted cmp asymm trans base count r (parted base) pick split one two sp sorted1
                moved1 sorted2 moved2,
            Shuffled-part base count (r + 1) n2 arr one two (omega (arith, sp.from))
                (omega (arith, sp.from, sp.upto)) whole1 moved2,
          ))
  ]
