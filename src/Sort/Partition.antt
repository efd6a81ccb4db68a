-- ===== src/Sort/Partition.antt =====
-- The loop of `qsort` in src/libc/stdlib.c that parts the items at the pivot.
use boss.Prelude.{
  ℕ, zero, suc, ◌+◌, ◌-◌, ◌≤◌, ◌<◌, ◌≡◌, refl, ◌∙◌, sym, ap, true, false, inl, inr, Bool-cases,
  some, ℤ, leb, ltb, ◌==◌, arith,
}
use boss.Sort.Insertion.{Shuffled, swapped}
use boss.Sort.{less, swap, scan_left, scan_right, partition}
use boss.Sort.Scans.{Below, Above, Differ, scan_left-Below, scan_right-Above, irreflexive}

module _ {A : Type 0} (cmp : A → A → ℤ)
    (asymm : (a b : A) → less cmp a b ≡ true → less cmp b a ≡ false) where
  -- Where the loop stands: items before `lo` are less than the pivot and those behind `hi` greater.
  pub record IsParting (base end left lo hi right : ℕ) (arr : ℕ → A) : Type 0 where
    pub starts : base < left
    pub left_lo : left ≤ lo
    pub lo_hi : lo ≤ hi + 1
    pub hi_right : hi ≤ right
    pub right_end : right < end
    pub hi_end : hi + 1 < end
    pub below : Below cmp asymm arr (arr base) (base + 1) lo
    pub above : Above cmp asymm arr (arr base) hi end
    pub differ : Differ cmp asymm arr (arr base) base end

  -- What the loop leaves: its last `right` parts the items.
  pub record IsParted (base end r : ℕ) (first arr : ℕ → A) : Type 0 where
    pub from : base ≤ r
    pub upto : r < end
    pub lower : Below cmp asymm arr (arr base) (base + 1) (r + 1)
    pub upper : Above cmp asymm arr (arr base) r end
    pub pivot : arr base ≡ first base
    pub moved : Shuffled base (end - base) first arr

  -- One round: where the two scans stop.
  pub record IsScanned (base end lo hi l r : ℕ) (arr : ℕ → A) : Type 0 where
    pub l_from : lo ≤ l
    pub l_upto : l ≤ hi + 1
    pub r_from : lo ≤ r + 1
    pub r_upto : r ≤ hi
    pub l_stops : less cmp (arr l) (arr base) ≡ false
    pub r_stops : less cmp (arr base) (arr r) ≡ false
    pub l_below : Below cmp asymm arr (arr base) (base + 1) l
    pub r_above : Above cmp asymm arr (arr base) r end

  scans :
      (fuel base end left lo hi right : ℕ) (arr : ℕ → A)
      → IsParting base end left lo hi right arr
      → end - base ≤ fuel
      → (l : ℕ) × (r : ℕ) × (scan_left cmp fuel arr (arr base) left ≡ some l)
        × (scan_right cmp fuel arr (arr base) right ≡ some r)
        × IsScanned base end lo hi l r arr
  scans fuel base end left lo hi right arr h f =
      let p = arr base in
      let stop_l : less cmp (arr (hi + 1)) p ≡ false =
        asymm p (arr (hi + 1)) (h.above (hi + 1) (omega arith) h.hi_end) in
      let (l, run_l, l1, l2, l3, l4) =
        scan_left-Below cmp asymm fuel arr p left (hi + 1) (omega (arith, h.left_lo, h.lo_hi))
          (omega (arith, h.starts, h.hi_end)) stop_l in
      let low : ℕ = lo - 1 in
      let stop_r : less cmp p (arr low) ≡ false = elim (Bool-cases (low == base)) [
        | inl at ↦ (let e : low ≡ base = ground arith in rw e (irreflexive cmp asymm p))
        | inr off ↦
            asymm (arr low) p (
              h.below low (ground (arith, h.starts, h.left_lo))
                (omega (arith, h.starts, h.left_lo)))
      ] in
      let (r, run_r, r1, r2, r3, r4) =
        scan_right-Above cmp asymm fuel arr p right low (omega (arith, h.lo_hi, h.hi_right))
          (omega (arith, h.starts, h.left_lo, h.right_end)) stop_r in
      (
        l,
        r,
        run_l,
        run_r,
        record {
          l_from = elim (Bool-cases (leb lo l)) [
            | inl x ↦ ground arith
            | inr x ↦
                (let clash : true ≡ false =
                    sym (h.below l (omega (arith, h.starts, l1)) (ground arith)) ∙ l3 in
                  absurd cc)
          ];
          l_upto = l2;
          r_from = omega (arith, h.starts, h.left_lo);
          r_upto = elim (Bool-cases (leb r hi)) [
            | inl x ↦ ground arith
            | inr x ↦
                (let clash : true ≡ false =
                    sym (h.above r (ground arith) (omega (arith, r2, h.right_end))) ∙ r3 in
                  absurd cc)
          ];
          l_stops = l3;
          r_stops = r3;
          l_below = λ k a b. elim (Bool-cases (ltb k lo)) [
            | inl x ↦ h.below k a (ground arith)
            | inr x ↦ l4 k (ground (arith, h.left_lo)) b
          ];
          r_above = λ k a b. elim (Bool-cases (ltb hi k)) [
            | inl x ↦ h.above k (ground arith) b
            | inr x ↦ r4 k a (ground (arith, h.hi_right))
          ];
        },
      )

  -- The swap of a round keeps what is known, with the two items on the right sides.
  swap-IsParting :
      (base end left lo hi right l r : ℕ) (arr : ℕ → A)
      → IsParting base end left lo hi right arr
      → IsScanned base end lo hi l r arr
      → l < r
      → IsParting base end l (l + 1) (r - 1) r (swap l r arr)
  unfolding swap
  swap-IsParting base end left lo hi right l r arr h s lt =
      let p = arr base in
      let l_above : less cmp p (arr l) ≡ true =
        elim (h.differ l (omega (arith, h.starts, h.left_lo, s.l_from))
          (omega (arith, s.r_upto, h.hi_end))) [
            | inl x ↦ (let clash : true ≡ false = sym x ∙ s.l_stops in absurd cc)
            | inr x ↦ x
          ] in
      let r_below : less cmp (arr r) p ≡ true =
        elim (h.differ r (omega (arith, h.starts, h.left_lo, s.l_from))
          (omega (arith, s.r_upto, h.hi_end))) [
            | inl x ↦ x
            | inr x ↦ (let clash : true ≡ false = sym x ∙ s.r_stops in absurd cc)
          ] in
      let arr' : ℕ → A = swap l r arr in
      let other : (k : ℕ) → (k == l) ≡ false → (k == r) ≡ false → arr' k ≡ arr k =
        λ k a b. rw (b, a) refl in
      let at_l : arr' l ≡ arr r =
        let l_r : (l == r) ≡ false = ground arith in
        let l_l : (l == l) ≡ true = ground arith in rw (l_r, l_l) refl in
      let at_r : arr' r ≡ arr l = let r_r : (r == r) ≡ true = ground arith in rw r_r refl in
      let far_l : base < l = omega (arith, h.starts, h.left_lo, s.l_from) in
      let pivot : arr' base ≡ p = other base (ground arith) (ground arith) in
      let is_below : (k : ℕ) (x : A)
          → arr' k ≡ x
          → less cmp x p ≡ true
          → less cmp (arr' k) (arr' base) ≡ true =
        λ k x e y. ap (λ a. less cmp a (arr' base)) e ∙ ap (λ b. less cmp x b) pivot ∙ y in
      let is_above : (k : ℕ) (x : A)
          → arr' k ≡ x
          → less cmp p x ≡ true
          → less cmp (arr' base) (arr' k) ≡ true =
        λ k x e y. ap (λ a. less cmp (arr' base) a) e ∙ ap (λ b. less cmp b x) pivot ∙ y in
      record {
        starts = omega (arith, h.starts, h.left_lo, s.l_from);
        left_lo = omega arith;
        lo_hi = omega arith;
        hi_right = omega arith;
        right_end = omega (arith, s.r_upto, h.hi_end);
        hi_end = omega (arith, s.r_upto, h.hi_end);
        below = λ k a b. elim (Bool-cases (k == l)) [
          | inl x ↦ is_below k (arr r) (ap arr' (ground arith) ∙ at_l) r_below
          | inr x ↦ is_below k (arr k) (other k x (ground arith)) (s.l_below k a (ground arith))
        ];
        above = λ k a b. elim (Bool-cases (k == r)) [
          | inl x ↦ is_above k (arr l) (ap arr' (ground arith) ∙ at_r) l_above
          | inr x ↦ is_above k (arr k) (other k (ground arith) x) (s.r_above k (ground arith) b)
        ];
        differ = λ k a b. elim (Bool-cases (k == l)) [
          | inl x ↦ inl (is_below k (arr r) (ap arr' (ground arith) ∙ at_l) r_below)
          | inr x ↦ elim (Bool-cases (k == r)) [
            | inl y ↦ inr (is_above k (arr l) (ap arr' (ground arith) ∙ at_r) l_above)
            | inr y ↦ elim (h.differ k a b) [
              | inl z ↦ inl (is_below k (arr k) (other k x y) z)
              | inr z ↦ inr (is_above k (arr k) (other k x y) z)
            ]
          ]
        ];
      }

  apart_lem :
      (base end left lo hi right l r : ℕ) (arr : ℕ → A)
      → IsParting base end left lo hi right arr
      → IsScanned base end lo hi l r arr
      → r ≤ l
      → r < l
  apart_lem base end left lo hi right l r arr h s le = elim (Bool-cases (r == l)) [
    | inr x ↦ ground arith
    | inl x ↦
        (let e : r ≡ l = ground arith in
          let stops : less cmp (arr base) (arr l) ≡ false =
            ap (λ i. less cmp (arr base) (arr i)) (sym e) ∙ s.r_stops in
          elim (h.differ l (omega (arith, h.starts, h.left_lo, s.l_from))
            (omega (arith, e, s.r_upto, h.hi_end))) [
              | inl z ↦ (let clash : true ≡ false = sym z ∙ s.l_stops in absurd cc)
              | inr z ↦ (let clash : true ≡ false = sym z ∙ stops in absurd cc)
            ])
  ]

  swap-Shuffled :
      (base n l r : ℕ) (first arr : ℕ → A)
      → base ≤ l
      → l < r
      → r < base + n
      → Shuffled base n first arr
      → Shuffled base n first (swap l r arr)
  swap-Shuffled base n l r first arr a b c s =
      let at_l : base + (l - base) ≡ l = omega arith in
      let at_r : base + (r - base) ≡ r = omega arith in
      let moved = swapped (l - base) (r - base) (omega arith) (omega arith) s in
      rw (at_l, at_r) at moved

  swap_first : (base l r : ℕ) (arr : ℕ → A) → base < l → l < r → swap l r arr base ≡ arr base
  unfolding swap
  swap_first base l r arr a b =
      let no_l : (base == l) ≡ false = ground arith in
      let no_r : (base == r) ≡ false = ground arith in rw (no_r, no_l) refl

  -- The loop ends, and the items before the last `right` are less than the pivot, those behind it
  -- greater.
  pub partition-IsParted :
      (fuel m base end left lo hi right : ℕ) (first arr : ℕ → A)
      → IsParting base end left lo hi right arr
      → arr base ≡ first base
      → Shuffled base (end - base) first arr
      → hi + 1 - lo ≤ m
      → m + (end - base) < fuel
      → (r : ℕ) × (arr' : ℕ → A) × (partition cmp fuel base left right arr ≡ some (r, arr'))
        × IsParted base end r first arr'
  unfolding partition
  partition-IsParted zero m base end left lo hi right first arr h e s b f = absurd (omega arith)
  partition-IsParted (suc fuel) m base end left lo hi right first arr h e s b f =
      let (l, r, run_l, run_r, sc) = scans fuel base end left lo hi right arr h (omega arith) in
      elim (Bool-cases (leb r l)) [
        | inl x ↦ (
          r,
          arr,
          rw (run_l, partition, run_r, partition, x, partition),
          record {
            from = omega (arith, h.starts, h.left_lo, sc.r_from);
            upto = omega (arith, h.hi_end, sc.r_upto);
            lower = λ k a b.
                sc.l_below k a
                  (omega (arith, apart_lem base end left lo hi right l r arr h sc (ground arith)));
            upper = sc.r_above;
            pivot = e;
            moved = s;
          },
        )
        | inr x ↦
            (let next = swap-IsParting base end left lo hi right l r arr h sc (ground arith) in
              let far_l : base < l = omega (arith, h.starts, h.left_lo, sc.l_from) in
              let l_r : l < r = ground arith in
              let moved =
                swap-Shuffled base (end - base) l r first arr (omega arith) l_r
                  (omega (arith, sc.r_upto, h.hi_end)) s in
              let rest =
                partition-IsParted fuel (m - 1) base end l (l + 1) (r - 1) r first (swap l r arr)
                  next (swap_first base l r arr far_l l_r ∙ e) moved
                  (omega (arith, sc.l_from, sc.r_upto)) (omega (arith, sc.l_from, sc.r_upto)) in
              (
                rest.0,
                rest.1,
                rw (run_l, partition, run_r, partition, x, partition) rest.2,
                rest.3,
              ))
      ]
