-- ===== src/Sort/Tests.antt =====
-- The sorts of src/libc/stdlib.c on numbers.
use boss.Prelude.{
  ℕ, ◌-◌, ◌≡◌, refl, true, false, none, some, ℤ, pos, negsuc, ltb, if◌then◌else◌, arith,
}
use boss.Sort.{less, swap, sink, ins_rounds, ins_sort, qsort}
use boss.Sort.Insertion.{Sorted, Shuffled}
use boss.Sort.Shuffling.{Distinct}
use boss.Sort.Quick.{qsort-Sorted}
use boss.Sort.Endless.{qsort_endless}

abbrev by_size : ℕ → ℕ → ℤ
by_size a b = if ltb a b then negsuc 0 else pos 0

by_size-asymm : (a b : ℕ) → less by_size a b ≡ true → less by_size b a ≡ false
unfolding less
by_size-asymm a b h = ground arith

by_size-trans :
    (a b c : ℕ) → less by_size b a ≡ false → less by_size c b ≡ false → less by_size c a ≡ false
unfolding less
by_size-trans a b c h k = ground arith

-- 5, 0, 3, 0, 0, ...
abbrev numbers : ℕ → ℕ
numbers i = if ltb i 1 then 5 else if ltb 2 i then 0 else if ltb 1 i then 3 else 0

-- 9, 8, 7, 6, 5.
abbrev falling : ℕ → ℕ
falling i = 9 - i

falling-Distinct : Distinct by_size 0 5 falling
unfolding less
falling-Distinct i j a b ne = ground (arith, ne)

qsort-Sorted_example :
    (arr' : ℕ → ℕ) × (qsort by_size 14 0 5 falling ≡ some arr')
    × Sorted by_size by_size-asymm by_size-trans 0 5 arr'
    × Shuffled 0 5 falling arr'
qsort-Sorted_example =
    qsort-Sorted by_size by_size-asymm by_size-trans 14 0 5 falling falling-Distinct (omega arith)

qsort_endless_example : qsort (λ (a b : ℕ). pos 0) 100 0 4 (λ i. 7) ≡ none
unfolding less
qsort_endless_example =
    qsort_endless (λ (a b : ℕ). pos 0) (λ a b. refl) 100 0 4 (λ i. 7) (omega arith)

last_item : ins_sort by_size 0 3 numbers 2 ≡ 5
unfolding ins_sort ins_rounds sink swap less
last_item = refl
