-- ===== src/Sort/Endless.antt =====
-- `qsort` of src/libc/stdlib.c on items that are all alike.
use boss.Prelude.{ℕ, zero, suc, ◌+◌, ◌-◌, ◌≤◌, ◌<◌, ◌≡◌, refl, false, none, ℤ, leb, ltb, arith}
use boss.Sort.{less, swap, scan_left, scan_right, partition, choose_pivot, qsort}

module _ {A : Type 0} (cmp : A → A → ℤ) (alike : (a b : A) → less cmp a b ≡ false) where
  partition_endless :
      (fuel ma left right : ℕ) (arr : ℕ → A)
      → left < right
      → partition cmp fuel ma left right arr ≡ none
  unfolding partition scan_left scan_right
  partition_endless zero ma left right arr h = refl
  partition_endless (suc zero) ma left right arr h = refl
  partition_endless (suc (suc fuel)) ma left right arr h =
      let far : leb right left ≡ false = ground arith in
      let rest = partition_endless (suc fuel) ma left right (swap left right arr) h in
      rw
        (
          alike (arr left) (arr ma),
          scan_left,
          alike (arr ma) (arr right),
          scan_right,
          far,
          partition,
        )
        rest

  -- On four or more items that all compare as equal `qsort` never ends: the loop that parts them
  -- swaps the same two items again and again, and no number of rounds is enough.
  pub qsort_endless :
      (fuel base count : ℕ) (arr : ℕ → A) → 4 ≤ count → qsort cmp fuel base count arr ≡ none
  unfolding qsort
  qsort_endless zero base count arr h = refl
  qsort_endless (suc fuel) base count arr h =
      let many : leb count 1 ≡ false = ground arith in
      let enough : ltb count 4 ≡ false = ground arith in
      rw (
        many,
        qsort,
        enough,
        qsort,
        partition_endless fuel base (base + 1) (base + (count - 2))
            (choose_pivot cmp base count arr) (omega arith),
        qsort,
      )
