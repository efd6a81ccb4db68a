-- ===== src/Sort/Joining.antt =====
-- How the sorted sides of `qsort` in src/libc/stdlib.c make a sorted whole.
use boss.Prelude.{
  ℕ, ◌+◌, ◌-◌, ◌≤◌, ◌<◌, ◌≡◌, refl, ◌∙◌, ap, true, false, inl, inr, Bool-cases, ℤ, ltb, ◌==◌, arith,
}
use boss.Sort.{less, swap}
use boss.Sort.Insertion.{Sorted, Shuffled, swapped}
use boss.Sort.Scans.{Above}
use boss.Sort.Partition.{IsParted}
use boss.Sort.Shuffling.{Shuffled-all, Shuffled-outside}

module _ {A : Type 0} (cmp : A → A → ℤ)
    (asymm : (a b : A) → less cmp a b ≡ true → less cmp b a ≡ false)
    (trans : (a b c : A) → less cmp b a ≡ false → less cmp c b ≡ false → less cmp c a ≡ false) where
  -- The array after the swap that puts the pivot in its place.
  pub record IsSplit (base count r : ℕ) (p : A) (first arr : ℕ → A) : Type 0 where
    pub from : base ≤ r
    pub upto : r < base + count
    pub place : arr r ≡ p
    pub lower : (k : ℕ) → k < r - base → less cmp (arr (base + k)) p ≡ true
    pub upper : Above cmp asymm arr p r (base + count)
    pub moved : Shuffled base count first arr

  pub split_lem :
      (base count r : ℕ) (first arr : ℕ → A)
      → IsParted cmp asymm base (base + count) r first arr
      → IsSplit base count r (arr base) first (swap base r arr)
  unfolding swap
  split_lem base count r first arr h = record {
    from = h.from;
    upto = h.upto;
    place = let e : (r == r) ≡ true = ground arith in rw e refl;
    lower = λ k b.
        let e : (base + k == r) ≡ false = ground (arith, h.from) in
        elim (Bool-cases (base + k == base)) [
          | inl x ↦ rw (e, x) (h.lower r (ground (arith, h.from)) (omega arith))
          | inr x ↦ rw (e, x) (h.lower (base + k) (ground arith) (omega (arith, h.from)))
        ];
    upper = λ k a b.
        let e : (k == r) ≡ false = ground arith in
        let e' : (k == base) ≡ false = ground (arith, h.from) in rw (e, e') (h.upper k a b);
    moved =
        let here : base + 0 ≡ base = omega arith in
        let there : base + (r - base) ≡ r = omega (arith, h.from) in
        let all : base + count - base ≡ count = omega arith in
        let kept : Shuffled base count first arr = rw all at h.moved in
        let exchanged : Shuffled base count first (swap (base + 0) (base + (r - base)) arr) =
          swapped 0 (r - base) (omega (arith, h.from, h.upto)) (omega (arith, h.from, h.upto))
            kept in
        rw (here, there) at exchanged;
  }

  -- What the calls for both sides leave is in order.
  pub join-Sorted :
      (base count r : ℕ) (p : A) (first arr one two : ℕ → A)
      → IsSplit base count r p first arr
      → Sorted cmp asymm trans base (r - base) one
      → Shuffled base (r - base) arr one
      → Sorted cmp asymm trans (r + 1) (count - (r - base) - 1) two
      → Shuffled (r + 1) (count - (r - base) - 1) one two
      → Sorted cmp asymm trans base count two
  join-Sorted base count r p first arr one two sp s1 m1 s2 m2 i j lt le =
      let n1 : ℕ = r - base in
      let n2 : ℕ = count - (r - base) - 1 in
      let there : base + n1 ≡ r = omega (arith, sp.from) in
      let at_r : two r ≡ p =
        Shuffled-outside (r + 1) n2 one two m2 r (inl (omega arith))
        ∙ Shuffled-outside base n1 arr one m1 r (inr (omega (arith, sp.from)))
        ∙ sp.place in
      let left : (k : ℕ) → k < n1 → two (base + k) ≡ one (base + k) =
        λ k b. Shuffled-outside (r + 1) n2 one two m2 (base + k) (inl (omega (arith, sp.from))) in
      let small : (k : ℕ) → k < n1 → less cmp (two (base + k)) p ≡ true = λ k b.
        ap (λ a. less cmp a p) (left k b)
        ∙ Shuffled-all (λ a. less cmp a p ≡ true) base n1 arr one m1 sp.lower k b in
      let great : (k : ℕ) → k < n2 → less cmp p (two (r + 1 + k)) ≡ true =
        Shuffled-all (λ a. less cmp p a ≡ true) (r + 1) n2 one two m2
          (λ k b.
            ap (λ a. less cmp p a)
              (Shuffled-outside base n1 arr one m1 (r + 1 + k) (inr (omega (arith, sp.from))))
            ∙ sp.upper (r + 1 + k) (omega arith) (omega (arith, sp.from, sp.upto))) in
      let own : less cmp p p ≡ false = elim (Bool-cases (less cmp p p)) [
        | inl x ↦ asymm p p x
        | inr x ↦ x
      ] in
      let low : (k : ℕ) → k ≤ n1 → less cmp p (two (base + k)) ≡ false = λ k b.
        elim (Bool-cases (k == n1)) [
          | inl x ↦
              (let e : base + k ≡ r = ground (arith, there) in
                ap (λ a. less cmp p (two a)) e ∙ ap (λ a. less cmp p a) at_r ∙ own)
          | inr x ↦ asymm (two (base + k)) p (small k (ground arith))
        ] in
      let high : (k : ℕ) → n1 ≤ k → k < count → less cmp (two (base + k)) p ≡ false = λ k b c.
        elim (Bool-cases (k == n1)) [
          | inl x ↦
              (let e : base + k ≡ r = ground (arith, there) in
                ap (λ a. less cmp (two a) p) e ∙ ap (λ a. less cmp a p) at_r ∙ own)
          | inr x ↦
              (let e : r + 1 + (k - n1 - 1) ≡ base + k = ground (arith, there) in
                asymm p (two (base + k)) (rw e at (great (k - n1 - 1) (ground arith))))
        ] in
      elim (Bool-cases (ltb j n1)) [
        | inl x ↦
            (let before : j < n1 = ground arith in
              rw (left j before, left i (omega arith)) (s1 i j lt before))
        | inr x ↦ elim (Bool-cases (ltb n1 i)) [
          | inl y ↦
              (let e : r + 1 + (i - n1 - 1) ≡ base + i = ground (arith, there) in
                let e' : r + 1 + (j - n1 - 1) ≡ base + j = ground (arith, there) in
                rw (e, e') at (s2 (i - n1 - 1) (j - n1 - 1) (ground arith) (ground arith)))
          | inr y ↦
              trans (two (base + i)) p (two (base + j)) (low i (ground arith))
                (high j (ground arith) le)
        ]
      ]
