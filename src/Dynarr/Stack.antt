-- ===== src/Dynarr/Stack.antt =====
-- The arrays of src/dynarr.c as stacks.
use boss.Prelude.{
  ℕ, zero, suc, ◌+◌, ◌-◌, ◌/◌, ◌<◌, ◌≤◌, ◌≡◌, refl, ◌∙◌, inl, inr, ◌⊎◌, Bool-cases, Option, none,
  some, List, [], ◌∷◌, ◌++◌, leb, ◌==◌, update, leb→le, arith,
}
use boss.Dynarr.{DynArr, dynarr_resize, push_item, dynarr_push, dynarr_pop}

module _ {A : Type 0} where
  -- The first `n` elements.
  pub first : (ℕ → A) → ℕ → List A
  first f zero = []
  first f (suc n) = first f n ++ f n ∷ []

  abbrev pub items : DynArr A → List A
  items da = first da.elems da.nelem

  -- The fields allow for the elements. Whether the memory behind `elems` does is up to `realloc`.
  abbrev pub IsValid : DynArr A → Type 0
  IsValid da = da.nelem ≤ da.max_elem

  -- What `realloc` promises for the elements that fit in both blocks.
  abbrev pub Keeps : ℕ → Option (ℕ → A) → DynArr A → Type 0
  Keeps n none da = Unit
  Keeps n (some block) da = (i : ℕ) → i < n → block i ≡ da.elems i

  first-ext : (f g : ℕ → A) (n : ℕ) → ((i : ℕ) → i < n → f i ≡ g i) → first f n ≡ first g n
  unfolding first
  first-ext f g zero h = refl
  first-ext f g (suc n) h = rw (first-ext f g n (λ i lt. h i (omega arith)), h n (omega arith))

  first-update : (f : ℕ → A) (n : ℕ) (x : A) → first (update f n x) (n + 1) ≡ first f n ++ x ∷ []
  unfolding first
  first-update f n x =
      let next : n + 1 ≡ suc n = omega arith in
      let self : update f n x n ≡ x = ground arith in
      let before = first-ext (update f n x) f n (λ i lt. ground arith) in rw (next, self, before)

  -- Pushing an item on an array whose `nelem` is at most its `max_elem` puts it behind the others, and
  -- `nelem` is at most `max_elem` again; it changes nothing if the two are equal and `realloc` fails.
  -- What `realloc` returns is assumed to keep the elements; how many bytes it returns is not said here.
  pub dynarr_push-items :
      (x : A) (block : Option (ℕ → A)) (da : DynArr A)
      → IsValid da
      → Keeps da.nelem block da
      → ((dynarr_push (some x) block da ≡ da) × ((block ≡ none) × (da.max_elem ≤ da.nelem)))
        ⊎ ((items (dynarr_push (some x) block da) ≡ items da ++ x ∷ [])
            × IsValid (dynarr_push (some x) block da))
  unfolding dynarr_push push_item dynarr_resize
  dynarr_push-items x none da v keeps = elim (Bool-cases (leb da.max_elem da.nelem)) [
    | inl full ↦ rw full (inl (refl, (refl, ground arith)))
    | inr room ↦ rw room (inr (first-update da.elems da.nelem x, ground arith))
  ]
  dynarr_push-items x (some block) da v keeps = elim (Bool-cases (leb da.max_elem da.nelem)) [
    | inl full ↦
        let same = first-ext block da.elems da.nelem keeps in
        rw full (inr (first-update block da.nelem x ∙ rw same, ground arith))
    | inr room ↦ rw room (inr (first-update da.elems da.nelem x, ground arith))
  ]

  -- With `nelem` at most `max_elem`, popping takes the last element off and keeps the others, also where
  -- the block shrinks, and keeps that bound. Nothing is popped from an empty array, nor where `realloc` fails
  -- to shrink the block. What `realloc` returns is assumed to keep the elements that fit.
  pub dynarr_pop-items :
      (block : Option (ℕ → A)) (da : DynArr A)
      → IsValid da
      → Keeps (da.nelem - 1) block da
      → ((dynarr_pop block da ≡ da) × ((da.nelem ≡ 0) ⊎ (block ≡ none)))
        ⊎ ((0 < da.nelem)
            × ((items (dynarr_pop block da) ≡ first da.elems (da.nelem - 1))
                × IsValid (dynarr_pop block da)))
  unfolding dynarr_pop dynarr_resize
  dynarr_pop-items none da v keeps = elim (Bool-cases (da.nelem == 0)) [
    | inl e ↦ rw e (inl (refl, inl (ground arith)))
    | inr e ↦ elim (Bool-cases (leb da.nelem (da.max_elem / 3))) [
      | inr big ↦ rw (e, big) (inr (ground arith, (refl, omega arith)))
      | inl small ↦ rw (e, small) (inl (refl, inr refl))
    ]
  ]
  dynarr_pop-items (some block) da v keeps = elim (Bool-cases (da.nelem == 0)) [
    | inl e ↦ rw e (inl (refl, inl (ground arith)))
    | inr e ↦ elim (Bool-cases (leb da.nelem (da.max_elem / 3))) [
      | inr big ↦ rw (e, big) (inr (ground arith, (refl, omega arith)))
      | inl small ↦
          let same = first-ext block da.elems (da.nelem - 1) keeps in
          rw (e, small) (inr (ground arith, (same, omega (arith, leb→le _ _ small))))
    ]
  ]
