-- ===== src/Sort.antt =====
-- `ins_sort` and `qsort` of src/libc/stdlib.c. An array is a function from the numbers of its items,
-- SWAP exchanges two items, and `less` is `cmp(a, b) < 0`. A loop that does not end gives `none` for
-- every number of rounds.
pub mod Insertion
pub mod Joining
pub mod Partition
pub mod Pivot
pub mod Quick
pub mod Scans
pub mod Shuffling
pub mod Endless
mod Tests
use boss.Prelude.{
  ℕ, zero, suc, ◌+◌, ◌-◌, ◌/◌, Bool, true, false, Option, none, some, ℤ, pos, negsuc, ltb, leb,
  if◌then◌else◌, update,
}

unfoldable pub swap : {A : Type 0} → ℕ → ℕ → (ℕ → A) → ℕ → A
swap i j arr = update (update arr i (arr j)) j (arr i)

module _ {A : Type 0} (cmp : A → A → ℤ) where
  unfoldable pub less : A → A → Bool
  less a b = elim (cmp a b) [ pos n ↦ false | negsuc n ↦ true ]

  -- The `while` of `ins_sort`, with the item `j` of the array at `base` as `a`.
  unfoldable pub sink : ℕ → ℕ → (ℕ → A) → ℕ → A
  sink base zero arr = arr
  sink base (suc j) arr = elim (less (arr (base + j + 1)) (arr (base + j))) [
    | true ↦ sink base j (swap (base + j + 1) (base + j) arr)
    | false ↦ arr
  ]

  -- `n` rounds of the `for` from the item `i` on.
  unfoldable pub ins_rounds : ℕ → ℕ → ℕ → (ℕ → A) → ℕ → A
  ins_rounds base zero i arr = arr
  ins_rounds base (suc n) i arr = ins_rounds base n (i + 1) (sink base i arr)

  unfoldable pub ins_sort : ℕ → ℕ → (ℕ → A) → ℕ → A
  ins_sort base count arr = if leb count 1 then arr else ins_rounds base (count - 1) 1 arr

  -- `while(cmp(left, ma) < 0) left += itemsz`, and its mirror.
  unfoldable pub scan_left : ℕ → (ℕ → A) → A → ℕ → Option ℕ
  scan_left zero arr pivot left = none
  scan_left (suc fuel) arr pivot left = elim (less (arr left) pivot) [
    | true ↦ scan_left fuel arr pivot (left + 1)
    | false ↦ some left
  ]

  unfoldable pub scan_right : ℕ → (ℕ → A) → A → ℕ → Option ℕ
  scan_right zero arr pivot right = none
  scan_right (suc fuel) arr pivot right = elim (less pivot (arr right)) [
    | true ↦ scan_right fuel arr pivot (right - 1)
    | false ↦ some right
  ]

  -- The `for(;;)`, which ends with `right` and the array.
  unfoldable pub partition : ℕ → ℕ → ℕ → ℕ → (ℕ → A) → Option (ℕ × (ℕ → A))
  partition zero ma left right arr = none
  partition (suc fuel) ma left right arr = elim (scan_left fuel arr (arr ma) left) [
    | none ↦ none
    | some l ↦ elim (scan_right fuel arr (arr ma) right) [
      | none ↦ none
      | some r ↦ elim (leb r l) [
        | true ↦ some (r, arr)
        | false ↦ partition fuel ma l r (swap l r arr)
      ]
    ]
  ]

  -- The two SWAPs that choose the pivot.
  unfoldable pub choose_pivot : ℕ → ℕ → (ℕ → A) → ℕ → A
  choose_pivot ma count arr =
      let mb : ℕ = ma + count / 2 in
      let mc : ℕ = ma + (count - 1) in
      let arr' = if less (arr ma) (arr mb) then swap ma mb arr else arr in
      if less (arr' mc) (arr' ma) then swap mc ma arr' else arr'

  -- `qsort` of the `count` items from `base` on; QSORT_THRESHOLD is 4.
  unfoldable pub qsort : ℕ → ℕ → ℕ → (ℕ → A) → Option (ℕ → A)
  qsort zero base count arr = none
  qsort (suc fuel) base count arr = elim (leb count 1) [
    | true ↦ some arr
    | false ↦ elim (ltb count 4) [
      | true ↦ some (ins_sort base count arr)
      | false ↦
          elim (partition fuel base (base + 1) (base + (count - 2)) (choose_pivot base count arr)) [
            | none ↦ none
            | some (r, parted) ↦
                (let nleft : ℕ = r - base in
                  elim (qsort fuel base nleft (swap base r parted)) [
                    | none ↦ none
                    | some sorted ↦ qsort fuel (r + 1) (count - nleft - 1) sorted
                  ])
          ]
    ]
  ]
