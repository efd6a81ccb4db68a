-- ===== src/Sort/Scans.antt =====
-- The two scans of `qsort` in src/libc/stdlib.c.
use boss.Prelude.{
  ℕ, zero, suc, ◌+◌, ◌-◌, ◌≤◌, ◌<◌, ◌≡◌, ◌∙◌, sym, ap, true, false, inl, inr, ◌⊎◌, Bool-cases, some,
  ℤ, ◌==◌, arith,
}
use boss.Sort.{less, scan_left, scan_right}

module _ {A : Type 0} (cmp : A → A → ℤ)
    (asymm : (a b : A) → less cmp a b ≡ true → less cmp b a ≡ false) where
  -- The items from `a` up to `b`, without it, are less than the pivot, or the pivot is less than
  -- those behind `a`.
  abbrev pub Below : (ℕ → A) → A → ℕ → ℕ → Type 0
  Below arr p a b = (k : ℕ) → a ≤ k → k < b → less cmp (arr k) p ≡ true

  abbrev pub Above : (ℕ → A) → A → ℕ → ℕ → Type 0
  Above arr p a b = (k : ℕ) → a < k → k < b → less cmp p (arr k) ≡ true

  -- No item but the first compares as equal to the pivot.
  abbrev pub Differ : (ℕ → A) → A → ℕ → ℕ → Type 0
  Differ arr p base end =
      (k : ℕ) → base < k → k < end → (less cmp (arr k) p ≡ true) ⊎ (less cmp p (arr k) ≡ true)

  pub scan_left-Below :
      (fuel : ℕ) (arr : ℕ → A) (p : A) (left stop : ℕ)
      → left ≤ stop
      → stop < left + fuel
      → less cmp (arr stop) p ≡ false
      → (l : ℕ) × (scan_left cmp fuel arr p left ≡ some l)
        × (left ≤ l)
        × (l ≤ stop)
        × (less cmp (arr l) p ≡ false)
        × Below arr p left l
  unfolding scan_left
  scan_left-Below zero arr p left stop h f e = absurd (omega arith)
  scan_left-Below (suc fuel) arr p left stop h f e = elim (Bool-cases (less cmp (arr left) p)) [
    | inr x ↦ (left, rw (x, scan_left), omega arith, h, x, λ k a b. absurd (omega arith))
    | inl x ↦ elim (Bool-cases (left == stop)) [
      | inl at ↦
          (let same : left ≡ stop = ground arith in
            let clash : true ≡ false = sym x ∙ ap (λ i. less cmp (arr i) p) same ∙ e in absurd cc)
      | inr before ↦
          (let rest = scan_left-Below fuel arr p (left + 1) stop (ground arith) (omega arith) e in
            let (l, run, lo, hi, stops, all) = rest in
            (
              l,
              rw (x, scan_left) run,
              omega arith,
              hi,
              stops,
              λ k a b. elim (Bool-cases (k == left)) [
                | inl first ↦ (let here : k ≡ left = ground arith in rw here x)
                | inr later ↦ all k (ground arith) b
              ],
            ))
    ]
  ]

  pub scan_right-Above :
      (fuel : ℕ) (arr : ℕ → A) (p : A) (right stop : ℕ)
      → stop ≤ right
      → right < stop + fuel
      → less cmp p (arr stop) ≡ false
      → (r : ℕ) × (scan_right cmp fuel arr p right ≡ some r)
        × (stop ≤ r)
        × (r ≤ right)
        × (less cmp p (arr r) ≡ false)
        × Above arr p r (right + 1)
  unfolding scan_right
  scan_right-Above zero arr p right stop h f e = absurd (omega arith)
  scan_right-Above (suc fuel) arr p right stop h f e = elim (Bool-cases (less cmp p (arr right))) [
    | inr x ↦ (right, rw (x, scan_right), h, omega arith, x, λ k a b. absurd (omega arith))
    | inl x ↦ elim (Bool-cases (right == stop)) [
      | inl at ↦
          (let same : right ≡ stop = ground arith in
            let clash : true ≡ false = sym x ∙ ap (λ i. less cmp p (arr i)) same ∙ e in absurd cc)
      | inr before ↦
          (let rest =
              scan_right-Above fuel arr p (right - 1) stop (ground arith) (ground arith) e in
            let (r, run, lo, hi, stops, all) = rest in
            (
              r,
              rw (x, scan_right) run,
              lo,
              omega arith,
              stops,
              λ k a b. elim (Bool-cases (k == right)) [
                | inl first ↦ (let here : k ≡ right = ground arith in rw here x)
                | inr later ↦ all k a (ground arith)
              ],
            ))
    ]
  ]

  pub irreflexive : (a : A) → less cmp a a ≡ false
  irreflexive a = elim (Bool-cases (less cmp a a)) [ inl x ↦ asymm a a x | inr x ↦ x ]
