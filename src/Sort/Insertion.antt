-- ===== src/Sort/Insertion.antt =====
-- `ins_sort` of src/libc/stdlib.c sorts.
use boss.Prelude.{
  ℕ, zero, suc, ◌+◌, ◌-◌, ◌≤◌, ◌<◌, ◌≡◌, ◌≢◌, true, false, inl, inr, Bool-cases, some, ℤ, leb, ltb,
  ◌==◌, arith,
}
use boss.Sort.{less, swap, sink, ins_rounds, ins_sort, qsort}

-- The array comes from the other by swaps of items from `base` up to the item `base + n`.
pub data Shuffled {A : Type 0} (base n : ℕ) (arr : ℕ → A) : (ℕ → A) → Type 0 where
  same : Shuffled base n arr arr
  swapped :
      {arr' : ℕ → A} (i j : ℕ)
      → i < n
      → j < n
      → Shuffled base n arr arr'
      → Shuffled base n arr (swap (base + i) (base + j) arr')

module _ {A : Type 0} (cmp : A → A → ℤ)
    (asymm : (a b : A) → less cmp a b ≡ true → less cmp b a ≡ false)
    (trans : (a b c : A) → less cmp b a ≡ false → less cmp c b ≡ false → less cmp c a ≡ false) where
  -- The items up to `i` are in order, but for the item `j`, which may belong further down.
  abbrev SortedBut : ℕ → ℕ → ℕ → (ℕ → A) → Type 0
  SortedBut base j i arr =
      (p q : ℕ) → p < q → q ≤ i → q ≢ j → less cmp (arr (base + q)) (arr (base + p)) ≡ false

  -- No item is less than one before it.
  abbrev pub Sorted : ℕ → ℕ → (ℕ → A) → Type 0
  Sorted base n arr = (p q : ℕ) → p < q → q < n → less cmp (arr (base + q)) (arr (base + p)) ≡ false

  swap_step :
      (base j i : ℕ) (arr : ℕ → A)
      → suc j ≤ i
      → less cmp (arr (base + j + 1)) (arr (base + j)) ≡ true
      → SortedBut base (suc j) i arr
      → SortedBut base j i (swap (base + j + 1) (base + j) arr)
  unfolding swap
  swap_step base j i arr h x s p q lt le ne =
      let up : base + suc j ≡ base + j + 1 = omega arith in
      elim (Bool-cases (base + q == base + j)) [
        | inl q_low ↦ absurd (ne (ground arith))
        | inr q_low ↦ elim (Bool-cases (base + q == base + j + 1)) [
          | inl q_up ↦ elim (Bool-cases (base + p == base + j)) [
            | inl p_low ↦ rw (q_low, q_up, p_low) (asymm _ _ x)
            | inr p_low ↦
                (let p_up : (base + p == base + j + 1) ≡ false = ground arith in
                  rw (q_low, q_up, p_low, p_up)
                    (s p j (ground arith) (omega arith) (λ e. ground (arith, e))))
          ]
          | inr q_up ↦ elim (Bool-cases (base + p == base + j)) [
            | inl p_low ↦
                rw (q_low, q_up, p_low, ← up)
                  (s (suc j) q (ground arith) le (λ e. ground (arith, e)))
            | inr p_low ↦ elim (Bool-cases (base + p == base + j + 1)) [
              | inl p_up ↦
                  rw (q_low, q_up, p_low, p_up) (s j q (ground arith) le (λ e. ground (arith, e)))
              | inr p_up ↦ rw (q_low, q_up, p_low, p_up) (s p q lt le (λ e. ground (arith, e)))
            ]
          ]
        ]
      ]

  stopped :
      (base j i : ℕ) (arr : ℕ → A)
      → less cmp (arr (base + j + 1)) (arr (base + j)) ≡ false
      → SortedBut base (suc j) i arr
      → (p q : ℕ) → p < q
      → q ≤ i
      → less cmp (arr (base + q)) (arr (base + p)) ≡ false
  stopped base j i arr x s p q lt le = elim (Bool-cases (q == suc j)) [
    | inr other ↦ s p q lt le (λ e. ground (arith, e))
    | inl here ↦
        (let at : base + q ≡ base + j + 1 = ground arith in
          rw at (elim (Bool-cases (p == j)) [
            | inl last ↦ (let low : p ≡ j = ground arith in rw low x)
            | inr below ↦
                trans (arr (base + p)) (arr (base + j)) (arr (base + j + 1))
                  (s p j (ground arith) (ground arith) (λ e. omega (arith, e))) x
          ]))
  ]

  -- What `sink` does with a part that is in order but for the item `j`.
  sink-SortedBut :
      (base j i : ℕ) (arr : ℕ → A)
      → j ≤ i
      → SortedBut base j i arr
      → Sorted base (i + 1) (sink cmp base j arr)
  unfolding sink
  sink-SortedBut base zero i arr h s = λ p q lt le. s p q lt (omega arith) (λ e. omega (arith, e))
  sink-SortedBut base (suc j) i arr h s =
      elim (Bool-cases (less cmp (arr (base + j + 1)) (arr (base + j)))) [
        | inl x ↦
            rw (x, sink)
              (sink-SortedBut base j i (swap (base + j + 1) (base + j) arr) (omega arith)
                (swap_step base j i arr h x s))
        | inr x ↦ rw (x, sink) (λ p q lt le. stopped base j i arr x s p q lt (omega arith))
      ]

  ins_rounds-Sorted :
      (base n i : ℕ) (arr : ℕ → A)
      → Sorted base i arr
      → Sorted base (i + n) (ins_rounds cmp base n i arr)
  unfolding ins_rounds
  ins_rounds-Sorted base zero i arr s = λ p q lt le. s p q lt (omega arith)
  ins_rounds-Sorted base (suc n) i arr s =
      let one =
        sink-SortedBut base i i arr (omega arith) (λ p q lt le ne. s p q lt (ground (arith, ne))) in
      let rest = ins_rounds-Sorted base n (i + 1) (sink cmp base i arr) one in
      λ p q lt le. rest p q lt (omega arith)

  sink-Shuffled :
      (base j n : ℕ) (first arr : ℕ → A)
      → j < n
      → Shuffled base n first arr
      → Shuffled base n first (sink cmp base j arr)
  unfolding sink
  sink-Shuffled base zero n first arr h s = s
  sink-Shuffled base (suc j) n first arr h s =
      elim (Bool-cases (less cmp (arr (base + j + 1)) (arr (base + j)))) [
        | inl x ↦
            (let up : base + j + 1 ≡ base + suc j = omega arith in
              let next : Shuffled base n first (swap (base + j + 1) (base + j) arr) =
                rw up (swapped (suc j) j h (omega arith) s) in
              rw (x, sink) (sink-Shuffled base j n first _ (omega arith) next))
        | inr x ↦ rw (x, sink) s
      ]

  ins_rounds-Shuffled :
      (base n i m : ℕ) (first arr : ℕ → A)
      → i + n ≤ m
      → Shuffled base m first arr
      → Shuffled base m first (ins_rounds cmp base n i arr)
  unfolding ins_rounds
  ins_rounds-Shuffled base zero i m first arr h s = s
  ins_rounds-Shuffled base (suc n) i m first arr h s =
      ins_rounds-Shuffled base n (i + 1) m first (sink cmp base i arr) (omega arith)
        (sink-Shuffled base i m first arr (omega arith) s)

  -- With a comparison that is an order, `ins_sort` puts any number of items in order, from any start,
  -- and does so by swaps of these items alone.
  pub ins_sort-Sorted :
      (base count : ℕ) (arr : ℕ → A)
      → Sorted base count (ins_sort cmp base count arr)
        × Shuffled base count arr (ins_sort cmp base count arr)
  unfolding ins_sort
  ins_sort-Sorted base count arr = elim (Bool-cases (leb count 1)) [
    | inl few ↦ rw few ((λ p q lt le. absurd (ground arith)), same)
    | inr many ↦
        (let all : 1 + (count - 1) ≡ count = ground arith in
          let rounds =
            ins_rounds-Sorted base (count - 1) 1 arr (λ p q lt le. absurd (omega arith)) in
          rw many (
            (λ p q lt le. rounds p q lt (omega (arith, all))),
            ins_rounds-Shuffled base (count - 1) 1 count arr arr (omega (arith, all)) same,
          ))
  ]

  -- So does `qsort` for up to three items.
  pub qsort-Sorted_few :
      (fuel base count : ℕ) (arr : ℕ → A)
      → count < 4
      → (arr' : ℕ → A) × (qsort cmp (suc fuel) base count arr ≡ some arr')
        × Sorted base count arr'
        × Shuffled base count arr arr'
  unfolding qsort
  qsort-Sorted_few fuel base count arr h = elim (Bool-cases (leb count 1)) [
    | inl few ↦ (arr, rw (few, qsort), (λ p q lt le. absurd (ground arith)), same)
    | inr many ↦
        (let below : ltb count 4 ≡ true = ground arith in
          let sorted = ins_sort-Sorted base count arr in
          (ins_sort cmp base count arr, rw (many, qsort, below, qsort), sorted.0, sorted.1))
  ]
