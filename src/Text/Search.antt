-- ===== src/Text/Search.antt =====
-- src/libc/string.c: the searches for a string in another one.
use boss.Prelude.{
  ℕ, ◌≡◌, refl, sym, ◌∙◌, ap, Bool, true, false, inl, inr, ◌⊎◌, Bool-cases, none, some, List, [],
  ◌∷◌, ◌++◌, if◌then◌else◌, arith,
}
use boss.Text.{matches_by, find_by, strstr}

matches_by-append : (sub after : List ℕ) → matches_by (λ c. c) (sub ++ after) sub ≡ true
unfolding matches_by
matches_by-append [] after = refl
matches_by-append (d ∷ sub) after = ground (arith, matches_by-append sub after)

matches_by-split :
    (s sub : List ℕ) → matches_by (λ c. c) s sub ≡ true → (after : List ℕ) × (s ≡ sub ++ after)
unfolding matches_by
matches_by-split s [] h = (s, refl)
matches_by-split [] (d ∷ sub) h = absurd cc
matches_by-split (c ∷ s) (d ∷ sub) h =
    let head : c ≡ d = ground arith in
    let rest : matches_by (λ c. c) s sub ≡ true = ground arith in
    let (after, e) = matches_by-split s sub rest in (after, rw (head, e))

-- Whether `sub` stands somewhere in a string, from its first byte to its last.
abbrev pub occurs : List ℕ → List ℕ → Bool
occurs sub [] = false
occurs sub (c ∷ s) = if matches_by (λ c. c) (c ∷ s) sub then true else occurs sub s

occurs-append :
    (d : ℕ) (sub before after : List ℕ) → occurs (d ∷ sub) (before ++ (d ∷ sub) ++ after) ≡ true
occurs-append d sub [] after = rw (matches_by-append (d ∷ sub) after)
occurs-append d sub (c ∷ before) after = ground (arith, occurs-append d sub before after)

find_by-occurs :
    (s sub : List ℕ)
    → ((find_by (λ c. c) s sub ≡ none) × (occurs sub s ≡ false))
      ⊎ ((before : List ℕ) × (after : List ℕ) × (find_by (λ c. c) s sub ≡ some (sub ++ after))
          × (s ≡ before ++ sub ++ after))
unfolding find_by
find_by-occurs [] sub = inl (refl, refl)
find_by-occurs (c ∷ s) sub = elim (Bool-cases (matches_by (λ c. c) (c ∷ s) sub)) [
  | inl e ↦ let (after, p) = matches_by-split (c ∷ s) sub e in rw e (inr ([], after, ap some p, p))
  | inr e ↦ elim (find_by-occurs s sub) [
    | inl (gone, absent) ↦ rw (e, gone) (inl (refl, absent))
    | inr (before, after, found, p) ↦
        rw (e, found) (inr (c ∷ before, after, refl, ap (λ r. c ∷ r) p))
  ]
]

-- `strstr` finds a non-empty string that stands anywhere in another: what it returns is the rest of
-- the other string from a place on where the first one stands.
pub strstr-finds :
    (d : ℕ) (sub before after : List ℕ)
    → (before' : List ℕ) × (after' : List ℕ) × (strstr (before ++ (d ∷ sub) ++ after) (d ∷ sub)
        ≡ some ((d ∷ sub) ++ after'))
      × (before ++ (d ∷ sub) ++ after ≡ before' ++ (d ∷ sub) ++ after')
unfolding strstr
strstr-finds d sub before after = elim (find_by-occurs (before ++ (d ∷ sub) ++ after) (d ∷ sub)) [
  | inr found ↦ found
  | inl (gone, absent) ↦
      let present = occurs-append d sub before after in
      let clash : true ≡ false = sym present ∙ absent in absurd cc
]
