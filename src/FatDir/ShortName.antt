-- ===== src/FatDir/ShortName.antt =====
-- Names of 8 and 3 bytes in the entries of src/fsfat.c.
use boss.Prelude.{
  ℕ, zero, suc, ◌-◌, ◌≡◌, refl, ◌∙◌, ap, false, List, [], ◌∷◌, ◌++◌, length, replicate, get_or,
  ◌==◌, ◌||◌, if◌then◌else◌, arith,
}
use boss.Text.{isspace}
use boss.Config.{strip_end}
use boss.Memfile.{bytes_from}
use boss.FatDir.{Slot, until_nul, clean_trailws, short_name}

-- Text without blanks and zeros.
abbrev pub IsPlain : List ℕ → Type 0
IsPlain [] = Unit
IsPlain (c ∷ s) = ((c == 0) ≡ false) × (isspace c ≡ false) × IsPlain s

-- A field of `n` bytes, filled with blanks.
abbrev pub padded : ℕ → List ℕ → List ℕ
padded n s = s ++ replicate (n - length s) 32

until_nul-spaces : (n : ℕ) → until_nul (replicate n 32) ≡ replicate n 32
unfolding until_nul
until_nul-spaces zero = refl
until_nul-spaces (suc n) = ap (λ r. 32 ∷ r) (until_nul-spaces n)

until_nul-padded :
    (s : List ℕ) (n : ℕ) → IsPlain s → until_nul (s ++ replicate n 32) ≡ s ++ replicate n 32
unfolding until_nul
until_nul-padded [] n h = until_nul-spaces n
until_nul-padded (c ∷ s) n (z, b, h) = rw (z, until_nul-padded s n h)

strip_end-spaces : (n : ℕ) → strip_end (replicate n 32) ≡ []
unfolding strip_end
strip_end-spaces zero = refl
strip_end-spaces (suc n) = rw (strip_end-spaces n)

strip_end-padded : (s : List ℕ) (n : ℕ) → IsPlain s → strip_end (s ++ replicate n 32) ≡ s
unfolding strip_end
strip_end-padded [] n h = strip_end-spaces n
strip_end-padded (c ∷ s) n (z, b, h) = rw (b, strip_end-padded s n h)

field-padded : (n : ℕ) (s : List ℕ) → IsPlain s → clean_trailws (until_nul (padded n s)) ≡ s
unfolding clean_trailws
field-padded n s h =
    ap strip_end (until_nul-padded s (n - length s) h) ∙ strip_end-padded s (n - length s) h

-- An entry whose name and extension stand in their fields, filled with blanks, has the name, and
-- behind it a dot and the extension if there is one. The name is not empty, and neither holds blanks
-- or zeros.
pub short_name-padded :
    (s : Slot) (c : ℕ) (base ext : List ℕ)
    → IsPlain (c ∷ base)
    → IsPlain ext
    → bytes_from s 0 8 ≡ padded 8 (c ∷ base)
    → bytes_from s 8 3 ≡ padded 3 ext
    → short_name s ≡ (if length ext == 0 then c ∷ base else (c ∷ base) ++ (b'.' ∷ ext))
unfolding short_name bytes_from
short_name-padded s c base [] h k p q =
    let first : s 8 ≡ 32 = ap (λ l. get_or l 0 0) q in
    let full : (suc (length base) == 0) ≡ false = ground arith in
    rw (p, field-padded 8 (c ∷ base) h, full, first)
short_name-padded s c base (d ∷ ext) h (dz, db, k) p q =
    let first : s 8 ≡ d = ap (λ l. get_or l 0 0) q in
    let plain : (s 8 == 0 || s 8 == 32) ≡ false = rw first (ground arith) in
    let full : (suc (length base) == 0) ≡ false = ground arith in
    let tail : (suc (length ext) == 0) ≡ false = ground arith in
    let name = field-padded 8 (c ∷ base) h in
    rw (p, q, name, field-padded 3 (d ∷ ext) (dz, db, k), full, plain, tail)
