-- ===== src/FatFile/Contents.antt =====
-- What a file of src/fsfat.c holds, by the clusters of its chain.
use native.Mathlib.Nat.{
  add-mul-div_right, add-mul-mod_self_right, mod-add-div', mod-eq_of_lt, div-eq_of_lt, add-mul,
}
use boss.Prelude.{ℕ, zero, suc, ◌+◌, ◌*◌, ◌/◌, ◌%◌, ◌≤◌, ◌<◌, ◌≡◌, refl, sym, ◌∙◌, ap, arith}
use boss.Memfile.{bytes_from}

-- Blocks of `c` bytes one behind the other.
abbrev pub joined : (ℕ → ℕ → ℕ) → ℕ → ℕ → ℕ
joined block c i = block (i / c) (i % c)

joined-place : (block : ℕ → ℕ → ℕ) (c q r : ℕ) → r < c → joined block c (r + q * c) ≡ block q r
joined-place block c q r h =
    let some_c : 0 < c = omega arith in
    let quot : (r + q * c) / c ≡ q =
      add-mul-div_right r q some_c ∙ rw (div-eq_of_lt h) (omega arith) in
    let rem : (r + q * c) % c ≡ r = add-mul-mod_self_right r q c ∙ mod-eq_of_lt h in rw (quot, rem)

-- Inside a block the bytes are those of the block.
pub bytes_from-joined :
    (block : ℕ → ℕ → ℕ) (c q r len : ℕ)
    → r + len ≤ c
    → bytes_from (joined block c) (r + q * c) len ≡ bytes_from (block q) r len
unfolding bytes_from
bytes_from-joined block c q r zero h = refl
bytes_from-joined block c q r (suc len) h =
    let place : r + q * c + 1 ≡ r + 1 + q * c = omega arith in
    rw (
      joined-place block c q r (omega arith),
      place,
      bytes_from-joined block c q (r + 1) len (omega arith),
    )

pub bytes_from-block :
    (block : ℕ → ℕ → ℕ) (c p len : ℕ)
    → p % c + len ≤ c
    → bytes_from (joined block c) p len ≡ bytes_from (block (p / c)) (p % c) len
bytes_from-block block c p len h =
    let split : p ≡ p % c + p / c * c = sym (mod-add-div' p c) in
    ap (λ x. bytes_from (joined block c) x len) split
    ∙ bytes_from-joined block c (p / c) (p % c) len h

-- Where a round ends in a block, and where the next block begins.
pub div-same : (c p len : ℕ) → p % c + len < c → (p + len) / c ≡ p / c
div-same c p len h =
    let split : p + len ≡ p % c + len + p / c * c = omega (arith, mod-add-div' p c) in
    let some_c : 0 < c = omega arith in
    rw split (add-mul-div_right (p % c + len) (p / c) some_c ∙ rw (div-eq_of_lt h) (omega arith))

pub div-next : (c p len : ℕ) → 0 < c → p % c + len ≡ c → (p + len) / c ≡ p / c + 1
div-next c p len some_c h =
    let split : p + len ≡ 0 + (p / c + 1) * c =
      omega (arith, mod-add-div' p c, h, add-mul (p / c) 1 c) in
    rw split (add-mul-div_right 0 (p / c + 1) some_c ∙ rw (div-eq_of_lt some_c) (omega arith))
