-- ===== src/Paths/Names.antt =====
-- The names of a path of src/fs.c.
use boss.Prelude.{
  ℕ, zero, suc, arith, ◌-◌, ◌≤◌, ◌<◌, ◌≡◌, refl, ◌∙◌, ap, false, inl, inr, Bool-cases, List, [],
  ◌∷◌, ◌++◌, length, take, replicate, leb, ◌==◌, if◌then◌else◌,
}
use boss.Paths.{fs_path_skipsep, split_name, copy_name, fs_path_next}

-- A name: no byte of it is a separator.
abbrev pub IsName : List ℕ → Type 0
IsName [] = Unit
IsName (c ∷ s) = ((c == b'/') ≡ false) × IsName s

-- What can follow the separators behind a name.
abbrev pub IsRest : List ℕ → Type 0
IsRest [] = Unit
IsRest (c ∷ s) = (c == b'/') ≡ false

abbrev pub separators : ℕ → List ℕ
separators n = replicate n b'/'

pub skipsep-separators : (n : ℕ) (s : List ℕ) → IsRest s → fs_path_skipsep (separators n ++ s) ≡ s
unfolding fs_path_skipsep
skipsep-separators zero [] h = refl
skipsep-separators zero (c ∷ s) h = rw h
skipsep-separators (suc n) s h = skipsep-separators n s h

split_name-append :
    (name rest : List ℕ) (n : ℕ)
    → IsName name
    → split_name (name ++ (separators (suc n) ++ rest)) ≡ (name, separators (suc n) ++ rest)
unfolding split_name
split_name-append [] rest n h = refl
split_name-append (c ∷ name) rest n (hc, h) = rw (hc, split_name-append name rest n h)

take-length : (s : List ℕ) → take (length s) s ≡ s
take-length [] = refl
take-length (c ∷ s) = ap (λ r. c ∷ r) (take-length s)

-- The next name of a path is the one behind its first separators, however many they are, and the rest
-- begins behind all the separators that follow. A name that does not fit in the buffer is cut.
pub fs_path_next-append :
    (m n bufsz c : ℕ) (name rest : List ℕ)
    → IsName (c ∷ name)
    → IsRest rest
    → fs_path_next (separators m ++ ((c ∷ name) ++ (separators (suc n) ++ rest))) bufsz
      ≡ ((if leb bufsz (length (c ∷ name)) then take (bufsz - 1) (c ∷ name) else c ∷ name), rest)
unfolding fs_path_next copy_name
fs_path_next-append m n bufsz c name rest h hr =
    let start = skipsep-separators m ((c ∷ name) ++ (separators (suc n) ++ rest)) h.0 in
    let cut = ap split_name start ∙ split_name-append (c ∷ name) rest n h in
    let after = skipsep-separators (suc n) rest hr in
    ap (copy_name bufsz) cut ∙ elim (Bool-cases (leb bufsz (length (c ∷ name)))) [
      | inl e ↦ rw (e, after)
      | inr e ↦ rw (e, after, take-length (c ∷ name))
    ]

split_name-last : (name : List ℕ) → IsName name → split_name name ≡ (name, [])
unfolding split_name
split_name-last [] h = refl
split_name-last (c ∷ name) (hc, h) = rw (hc, split_name-last name h)

-- The last name of a path, with nothing behind it.
pub fs_path_next-last :
    (bufsz c : ℕ) (name : List ℕ)
    → IsName (c ∷ name)
    → length (c ∷ name) < bufsz
    → fs_path_next (c ∷ name) bufsz ≡ (c ∷ name, [])
unfolding fs_path_next copy_name fs_path_skipsep
fs_path_next-last bufsz c name h short =
    let whole : leb bufsz (length (c ∷ name)) ≡ false = ground arith in
    rw (h.0, split_name-last (c ∷ name) h, whole, take-length (c ∷ name)) refl

length-skipsep : (s : List ℕ) → length (fs_path_skipsep s) ≤ length s
unfolding fs_path_skipsep
length-skipsep [] = omega arith
length-skipsep (c ∷ s) = ground (arith, length-skipsep s)

length-split_name : (s : List ℕ) → length (split_name s).1 ≤ length s
unfolding split_name
length-split_name [] = omega arith
length-split_name (c ∷ s) = ground (arith, length-split_name s)

-- A path that is not empty gets shorter.
pub length-fs_path_next :
    (c : ℕ) (s : List ℕ) (bufsz : ℕ) → length (fs_path_next (c ∷ s) bufsz).1 ≤ length s
unfolding fs_path_next copy_name fs_path_skipsep split_name
length-fs_path_next c s bufsz = elim (Bool-cases (c == b'/')) [
  | inl e ↦
      let start = length-skipsep s in
      let behind = length-split_name (fs_path_skipsep s) in
      let after = length-skipsep (split_name (fs_path_skipsep s)).1 in
      rw e (omega (arith, start, behind, after))
  | inr e ↦
      let behind = length-split_name s in
      let after = length-skipsep (split_name s).1 in rw (e, e) (omega (arith, behind, after))
]
