-- ===== src/Text/Compare.antt =====
-- src/libc/string.c: the comparisons.
use boss.Prelude.{
  ℕ, zero, suc, ◌<◌, ◌≡◌, ◌↔◌, refl, ap, sym, ◌∙◌, inl, inr, List, [], ◌∷◌, map, take, ◌==◌,
  Bool-cases, pos, ◌-ℤ◌, arith,
}
use mathlib.Core.Path.{ap₂}
use boss.Text.{schar, tolower, diff_by, strcmp, strcasecmp, ndiff_by, strncmp}

-- The bytes of a string: none is the terminator.
abbrev pub IsText : List ℕ → Type 0
IsText [] = Unit
IsText (c ∷ s) = (0 < c) × (c < 256) × IsText s

-- A map of bytes that keeps the terminator apart.
record Keeps (f : ℕ → ℕ) : Type 0 where
  at_end : f 0 ≡ 0
  inside : (c : ℕ) → 0 < c → c < 256 → (0 < f c) × (f c < 256)

minus-zero : (a b : ℕ) → a < 256 → b < 256 → (schar a -ℤ schar b ≡ pos 0) ↔ (a ≡ b)
unfolding ◌-ℤ◌
minus-zero a b p q = (λ h. ground arith, λ h. ground arith)

-- Equal heads of two mapped lists.
cons-injective : {a b : ℕ} {s t : List ℕ} → a ∷ s ≡ b ∷ t → (a ≡ b) × (s ≡ t)
cons-injective h = (cc, cc)

module _ (f : ℕ → ℕ) (k : Keeps f) where
  diff_by-zero : (s t : List ℕ) → IsText s → IsText t → diff_by f s t ≡ pos 0 → map f s ≡ map f t
  unfolding diff_by
  diff_by-zero [] [] p q h = refl
  diff_by-zero [] (d ∷ t) p q h =
      let e = (minus-zero (f 0) (f d) (omega (arith, k.at_end)) (k.inside d q.0 q.1).1).0 h in
      absurd (omega (arith, e, k.at_end, (k.inside d q.0 q.1).0))
  diff_by-zero (c ∷ s) [] p q h =
      let e = (minus-zero (f c) (f 0) (k.inside c p.0 p.1).1 (omega (arith, k.at_end))).0 h in
      absurd (omega (arith, e, k.at_end, (k.inside c p.0 p.1).0))
  diff_by-zero (c ∷ s) (d ∷ t) p q h = elim (Bool-cases (f c == f d)) [
    | inl same ↦
        let rest : diff_by f s t ≡ pos 0 = ground arith in
        let head : f c ≡ f d = ground arith in ap₂ ◌∷◌ head (diff_by-zero s t p.2 q.2 rest)
    | inr other ↦
        let e : schar (f c) -ℤ schar (f d) ≡ pos 0 = ground arith in
        let head = (minus-zero (f c) (f d) (k.inside c p.0 p.1).1 (k.inside d q.0 q.1).1).0 e in
        absurd (ground arith)
  ]

  zero-diff_by : (s t : List ℕ) → map f s ≡ map f t → diff_by f s t ≡ pos 0
  unfolding diff_by
  zero-diff_by [] [] h = refl
  zero-diff_by [] (d ∷ t) h = cc
  zero-diff_by (c ∷ s) [] h = cc
  zero-diff_by (c ∷ s) (d ∷ t) h = ground (arith, zero-diff_by s t, cons-injective h)

id-Keeps : Keeps (λ c. c)
id-Keeps = record { at_end = refl; inside = λ c p q. (p, q) }

tolower-Keeps : Keeps tolower
tolower-Keeps = record { at_end = refl; inside = λ c p q. (ground arith, ground arith) }

map_id : (s : List ℕ) → map (λ c. c) s ≡ s
map_id [] = refl
map_id (c ∷ s) = ap (λ r. c ∷ r) (map_id s)

-- `strcmp` returns 0 exactly for equal strings, and `strcasecmp` exactly for strings that are equal
-- once their letters are in lower case.
pub strcmp-zero_iff :
    (s t : List ℕ)
    → IsText s
    → IsText t
    → ((strcmp s t ≡ pos 0) ↔ (s ≡ t))
      × ((strcasecmp s t ≡ pos 0) ↔ (map tolower s ≡ map tolower t))
unfolding strcmp strcasecmp
strcmp-zero_iff s t p q = (
  (
    λ h. sym (map_id s) ∙ diff_by-zero (λ c. c) id-Keeps s t p q h ∙ map_id t,
    λ h. zero-diff_by (λ c. c) id-Keeps s t (ap (map (λ c. c)) h),
  ),
  (diff_by-zero tolower tolower-Keeps s t p q, zero-diff_by tolower tolower-Keeps s t),
)

take-zero :
    (n : ℕ) (s t : List ℕ) → IsText s → IsText t → strncmp s t (suc n) ≡ pos 0 → take n s ≡ take n t
unfolding strncmp ndiff_by
take-zero zero s t p q h = refl
take-zero (suc n) [] [] p q h = refl
take-zero (suc n) [] (d ∷ t) p q h =
    let far : schar 0 -ℤ schar d ≡ pos 0 = ground arith in
    let e = (minus-zero 0 d (omega arith) q.1).0 far in absurd (omega (arith, e, q.0))
take-zero (suc n) (c ∷ s) [] p q h =
    let far : schar c -ℤ schar 0 ≡ pos 0 = ground arith in
    let e = (minus-zero c 0 p.1 (omega arith)).0 far in absurd (omega (arith, e, p.0))
take-zero (suc n) (c ∷ s) (d ∷ t) p q h = elim (Bool-cases (c == d)) [
  | inl same ↦
      let rest : ndiff_by (λ c. c) (suc n) s t ≡ pos 0 = ground arith in
      let head : c ≡ d = ground arith in ap₂ ◌∷◌ head (take-zero n s t p.2 q.2 rest)
  | inr other ↦
      let e : schar c -ℤ schar d ≡ pos 0 = ground arith in
      let head = (minus-zero c d p.1 q.1).0 e in absurd (ground arith)
]

zero-take : (n : ℕ) (s t : List ℕ) → take n s ≡ take n t → strncmp s t (suc n) ≡ pos 0
unfolding strncmp ndiff_by
zero-take zero [] [] h = refl
zero-take zero [] (d ∷ t) h = refl
zero-take zero (c ∷ s) [] h = refl
zero-take zero (c ∷ s) (d ∷ t) h = ground arith
zero-take (suc n) [] [] h = refl
zero-take (suc n) [] (d ∷ t) h = cc
zero-take (suc n) (c ∷ s) [] h = cc
zero-take (suc n) (c ∷ s) (d ∷ t) h = ground (arith, zero-take n s t, cons-injective h)

-- `strncmp` with a count of `n + 1` returns 0 exactly when the strings agree in their first `n`
-- bytes: a difference at the last of the bytes to compare is not seen.
pub strncmp-zero_iff :
    (n : ℕ) (s t : List ℕ)
    → IsText s
    → IsText t
    → (strncmp s t (suc n) ≡ pos 0) ↔ (take n s ≡ take n t)
strncmp-zero_iff n s t p q = (take-zero n s t p q, zero-take n s t)
