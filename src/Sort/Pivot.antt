-- ===== src/Sort/Pivot.antt =====
-- How `qsort` of src/libc/stdlib.c chooses its pivot.
use boss.Prelude.{
  ℕ, ◌+◌, ◌-◌, ◌/◌, ◌≤◌, ◌<◌, ◌≡◌, ◌≢◌, refl, ◌∙◌, sym, ap, Bool, true, false, inl, inr, ℤ, ◌==◌,
  if◌then◌else◌, arith,
}
use boss.Sort.{less, swap, choose_pivot}
use boss.Sort.Insertion.{Shuffled, same, swapped}
use boss.Sort.Shuffling.{Distinct, Shuffled-Distinct}

module _ {A : Type 0} (cmp : A → A → ℤ)
    (asymm : (a b : A) → less cmp a b ≡ true → less cmp b a ≡ false)
    (trans : (a b c : A) → less cmp b a ≡ false → less cmp c b ≡ false → less cmp c a ≡ false) where
  -- A swap that is made or not.
  maybe_swapped :
      (b : Bool) (base n i j : ℕ) (first arr : ℕ → A)
      → i < n
      → j < n
      → Shuffled base n first arr
      → Shuffled base n first (if b then swap (base + i) (base + j) arr else arr)
  maybe_swapped true base n i j first arr h k s = swapped i j h k s
  maybe_swapped false base n i j first arr h k s = s

  swap_last : (i j : ℕ) (arr : ℕ → A) → i ≢ j → (swap i j arr i ≡ arr j) × (swap i j arr j ≡ arr i)
  unfolding swap
  swap_last i j arr ne =
      let a : (i == j) ≡ false = ground (arith, ne) in
      let b : (i == i) ≡ true = ground arith in
      let c : (j == j) ≡ true = ground arith in (rw (a, b) refl, rw c refl)

  last_step :
      (b : Bool) (base count : ℕ) (first mid : ℕ → A)
      → 4 ≤ count
      → Distinct cmp base count mid
      → Shuffled base count first mid
      → less cmp (mid (base + (count - 1))) (mid base) ≡ b
      → Shuffled base count first (if b then swap (base + (count - 1)) base mid else mid)
        × (less cmp
              ((if b then swap (base + (count - 1)) base mid else mid) base)
              ((if b then swap (base + (count - 1)) base mid else mid) (base + (count - 1)))
            ≡ true)
  last_step true base count first mid h d s e =
      let here : base + 0 ≡ base = omega arith in
      let exchanged : Shuffled base count first (swap (base + (count - 1)) (base + 0) mid) =
        swapped (count - 1) 0 (omega arith) (omega arith) s in
      let at = swap_last (base + (count - 1)) base mid (λ x. omega (arith, x)) in
      (
        rw here at exchanged,
        ap (λ x. less cmp x (swap (base + (count - 1)) base mid (base + (count - 1)))) at.1
            ∙ ap (λ x. less cmp (mid (base + (count - 1))) x) at.0
            ∙ e,
      )
  last_step false base count first mid h d s e =
      let here : base + 0 ≡ base = omega arith in
      let apart = d 0 (count - 1) (omega arith) (omega arith) (λ x. omega (arith, x)) in
      (
        s,
        elim (rw here at apart) [
          | inl x ↦ x
          | inr x ↦ (let clash : true ≡ false = sym x ∙ e in absurd cc)
        ],
      )

  -- The pivot is one of the items, and less than the last one.
  pub choose_pivot-last :
      (base count : ℕ) (arr : ℕ → A)
      → 4 ≤ count
      → Distinct cmp base count arr
      → Shuffled base count arr (choose_pivot cmp base count arr)
        × (less cmp
              (choose_pivot cmp base count arr base)
              (choose_pivot cmp base count arr (base + (count - 1)))
            ≡ true)
  unfolding choose_pivot
  choose_pivot-last base count arr h d =
      let mid : ℕ = count / 2 in
      let last : ℕ = count - 1 in
      let here : base + 0 ≡ base = omega arith in
      let one : Shuffled base count arr
          (if less cmp (arr base) (arr (base + mid)) then swap base (base + mid) arr else arr) =
        rw here at (
          maybe_swapped (less cmp (arr (base + 0)) (arr (base + mid))) base count 0 mid arr arr
            (omega arith) (omega arith) same) in
      last_step _ base count arr _ h (Shuffled-Distinct cmp base count arr _ one d) one refl
