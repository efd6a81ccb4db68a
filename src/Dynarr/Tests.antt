-- ===== src/Dynarr/Tests.antt =====
-- An array of src/dynarr.c with two elements, and the theorems at it.
use boss.Prelude.{◌≡◌, refl, ℕ, Option, some, none, [], ◌∷◌, ◌++◌, ◌⊎◌, ◌≤◌, ◌+◌, arith}
use boss.Dynarr.{DynArr, dynarr_push}
use boss.Dynarr.Stack.{items, IsValid, dynarr_push-items}

-- A full block of two.
abbrev full : DynArr ℕ
full = record { nelem = 2; max_elem = 2; szelem = 4; bufsz = 8; elems = λ i. i + 7 }

-- A block that has become too large.
abbrev sparse : DynArr ℕ
sparse = record { nelem = 2; max_elem = 6; szelem = 4; bufsz = 24; elems = λ i. i + 7 }

abbrev moved : Option (ℕ → ℕ)
moved = some (λ i. i + 7)

dynarr_push-items_example :
    ((dynarr_push (some 5) moved full ≡ full) × ((moved ≡ none) × (2 ≤ 2)))
    ⊎ ((items (dynarr_push (some 5) moved full) ≡ items full ++ 5 ∷ [])
        × IsValid (dynarr_push (some 5) moved full))
dynarr_push-items_example = dynarr_push-items 5 moved full (omega arith) (λ i h. refl)
