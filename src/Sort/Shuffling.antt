-- ===== src/Sort/Shuffling.antt =====
-- What swaps of the items of a part of an array keep.
use boss.Prelude.{
  ℕ, ◌+◌, ◌-◌, ◌≤◌, ◌<◌, ◌≡◌, ◌≢◌, refl, ◌∙◌, ap, true, false, inl, inr, ◌⊎◌, Bool-cases, ◌==◌,
  if◌then◌else◌, ℤ, arith,
}
use boss.Sort.{less, swap}
use boss.Sort.Insertion.{Shuffled, same, swapped}

module _ {A : Type 0} where
  swap-second : (i j : ℕ) (arr : ℕ → A) → swap i j arr j ≡ arr i
  unfolding swap
  swap-second i j arr = let e : (j == j) ≡ true = ground arith in rw e refl

  swap_first : (i j : ℕ) (arr : ℕ → A) → swap i j arr i ≡ arr j
  unfolding swap
  swap_first i j arr = elim (Bool-cases (i == j)) [
    | inl x ↦ (let e : i ≡ j = ground arith in rw x (ap arr e))
    | inr x ↦ (let e : (i == i) ≡ true = ground arith in rw (x, e) refl)
  ]

  swap_other :
      (i j k : ℕ) (arr : ℕ → A) → (k == i) ≡ false → (k == j) ≡ false → swap i j arr k ≡ arr k
  unfolding swap
  swap_other i j k arr a b = rw (b, a) refl

  pub Shuffled-outside :
      (base n : ℕ) (first arr : ℕ → A)
      → Shuffled base n first arr
      → (k : ℕ) → (k < base) ⊎ (base + n ≤ k)
      → arr k ≡ first k
  Shuffled-outside base n first arr same k h = refl
  Shuffled-outside base n first arr (swapped {arr' = old} i j a b s) k h =
      let off_i : (k == base + i) ≡ false = ground (arith, h) in
      let off_j : (k == base + j) ≡ false = ground (arith, h) in
      swap_other (base + i) (base + j) k old off_i off_j ∙ Shuffled-outside base n first old s k h

  -- Each item is one of the items before, at another place; so what holds of all of them is kept.
  pub Shuffled-all :
      (Q : A → Type 0) (base n : ℕ) (first arr : ℕ → A)
      → Shuffled base n first arr
      → ((k : ℕ) → k < n → Q (first (base + k)))
      → (k : ℕ) → k < n
      → Q (arr (base + k))
  Shuffled-all Q base n first arr same h k b = h k b
  Shuffled-all Q base n first arr (swapped {arr' = old} i j a c s) h k b =
      let all = Shuffled-all Q base n first old s h in
      elim (Bool-cases (base + k == base + j)) [
        | inl x ↦
            (let e : base + k ≡ base + j = ground arith in
              rw (e, swap-second (base + i) (base + j) old) (all i a))
        | inr x ↦ elim (Bool-cases (base + k == base + i)) [
          | inl y ↦
              (let e : base + k ≡ base + i = ground arith in
                rw (e, swap_first (base + i) (base + j) old) (all j c))
          | inr y ↦ rw (swap_other (base + i) (base + j) (base + k) old y x) (all k b)
        ]
      ]

  -- Swaps in a part are swaps in the whole.
  pub Shuffled-part :
      (base n from m : ℕ) (first mid arr : ℕ → A)
      → base ≤ from
      → from + m ≤ base + n
      → Shuffled base n first mid
      → Shuffled from m mid arr
      → Shuffled base n first arr
  Shuffled-part base n from m first mid arr a b s same = s
  Shuffled-part base n from m first mid arr a b s (swapped {arr' = old} i j c d t) =
      let at_i : base + (from + i - base) ≡ from + i = omega arith in
      let at_j : base + (from + j - base) ≡ from + j = omega arith in
      let moved =
        swapped (from + i - base) (from + j - base) (omega arith) (omega arith)
          (Shuffled-part base n from m first mid old a b s t) in
      rw (at_i, at_j) at moved

  module _ (cmp : A → A → ℤ) where
    -- No two items compare as equal.
    abbrev pub Distinct : ℕ → ℕ → (ℕ → A) → Type 0
    Distinct base n arr =
        (i j : ℕ)
        → i < n
        → j < n
        → i ≢ j
        → (less cmp (arr (base + i)) (arr (base + j)) ≡ true)
          ⊎ (less cmp (arr (base + j)) (arr (base + i)) ≡ true)

    pub Distinct-part :
        (base n from m : ℕ) (arr : ℕ → A)
        → base ≤ from
        → from + m ≤ base + n
        → Distinct base n arr
        → Distinct from m arr
    Distinct-part base n from m arr a b d i j c e ne =
        let at_i : base + (from + i - base) ≡ from + i = omega arith in
        let at_j : base + (from + j - base) ≡ from + j = omega arith in
        let apart =
          d (from + i - base) (from + j - base) (omega arith) (omega arith)
            (λ x. ne (omega (arith, x))) in
        rw (at_i, at_j) at apart

    -- The place that an item of the swapped array comes from.
    abbrev source : ℕ → ℕ → ℕ → ℕ
    source i j k = if k == j then i else if k == i then j else k

    swap-source :
        (base i j k : ℕ) (arr : ℕ → A)
        → swap (base + i) (base + j) arr (base + k) ≡ arr (base + source i j k)
    unfolding swap
    swap-source base i j k arr = elim (Bool-cases (k == j)) [
      | inl x ↦ (let x' : (base + k == base + j) ≡ true = ground arith in rw (x, x') refl)
      | inr x ↦
          (let x' : (base + k == base + j) ≡ false = ground arith in
            elim (Bool-cases (k == i)) [
              | inl y ↦
                  (let y' : (base + k == base + i) ≡ true = ground arith in rw (x, x', y, y') refl)
              | inr y ↦
                  (let y' : (base + k == base + i) ≡ false = ground arith in rw (x, x', y, y') refl)
            ])
    ]

    source_lt : (i j k n : ℕ) → i < n → j < n → k < n → source i j k < n
    source_lt i j k n a b c = ground arith

    source-injective : (i j k l : ℕ) → source i j k ≡ source i j l → k ≡ l
    source-injective i j k l e = ground (arith, e)

    pub Shuffled-Distinct :
        (base n : ℕ) (first arr : ℕ → A)
        → Shuffled base n first arr
        → Distinct base n first
        → Distinct base n arr
    Shuffled-Distinct base n first arr same d = d
    Shuffled-Distinct base n first arr (swapped {arr' = old} i j a b s) d = λ k l c e ne.
        let apart =
          Shuffled-Distinct base n first old s d (source i j k) (source i j l)
            (source_lt i j k n a b c) (source_lt i j l n a b e)
            (λ x. ne (source-injective i j k l x)) in
        rw (swap-source base i j k old, swap-source base i j l old) apart
