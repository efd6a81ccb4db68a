-- ===== src/Pages/Marks.antt =====
-- src/mem.c: what marking does to each page.
use Prim.Native.Nat.{bit_and, bit_or}
use native.Mathlib.Nat.{one-le-pow}
use boss.Prelude.{
  ℕ, zero, suc, ◌+◌, ◌-◌, ◌*◌, ◌/◌, ◌%◌, ◌^◌, ◌≤◌, ◌<◌, ◌≡◌, ◌∙◌, Bool-cases, inl, inr, ==_iff,
  Bool, true, false, ltb, leb, ◌==◌, ◌&&◌, if◌then◌else◌, not, arith,
}
use boss.Bits.{bit, bit_le, bit-bit_and, bit-bit_or, bit-pow, bit_clear_mask, bit_and-pow}
use boss.Pages.{Pages, put_word, is_free, mark_page, mark_range}

-- A page is used when its bit is set.
abbrev pub Used : Pages → ℕ → Type 0
Used s pg = is_free s pg ≡ false

pow_pos : (k : ℕ) → 0 < 2 ^ k
pow_pos k = one-le-pow k 2 (omega arith)

pub is_free-bit : (s : Pages) (pg : ℕ) → is_free s pg ≡ (bit (s.bitmap (pg / 32)) (pg % 32) == 0)
unfolding is_free
is_free-bit s pg =
    let b = bit (s.bitmap (pg / 32)) (pg % 32) in
    rw (bit_and-pow (pg % 32) (s.bitmap (pg / 32)))
      (case b (2 ^ (pg % 32)) (pow_pos (pg % 32)) (bit_le (s.bitmap (pg / 32)) (pg % 32)))
  where
    case : (b p : ℕ) → 0 < p → b ≤ 1 → (b * p == 0) ≡ (b == 0)
    case zero p h l = ground arith
    case (suc zero) p h l = ground arith
    case (suc (suc b)) p h l = absurd (omega arith)

mark_bit :
    (w j k : ℕ) (used : Bool)
    → j < 32
    → k < 32
    → (bit (if used then bit_or w (2 ^ j) else bit_and w (2 ^ 32 - 1 - 2 ^ j)) k == 0)
      ≡ (if k == j then not used else bit w k == 0)
mark_bit w j k true hj hk = ground (arith, bit-bit_or w (2 ^ j) k, bit-pow j k, bit_le w k)
mark_bit w j k false hj hk =
    ground (arith, bit-bit_and w (2 ^ 32 - 1 - 2 ^ j) k, bit_clear_mask j k, bit_le w k)

-- Marking a page settles that page and no other.
pub is_free-mark_page :
    (s : Pages) (pg q : ℕ) (used : Bool)
    → is_free (mark_page pg used s) q ≡ (if q == pg then not used else is_free s q)
unfolding mark_page put_word
is_free-mark_page s pg q used = elim (Bool-cases (q / 32 == pg / 32)) [
  | inl same ↦
      let e : q / 32 ≡ pg / 32 = (==_iff _ _).0 same in
      let pages : (q % 32 == pg % 32) ≡ (q == pg) = ground arith in
      is_free-bit (mark_page pg used s) q
      ∙ rw (same, ← pages, is_free-bit s q, e)
          (mark_bit (s.bitmap (pg / 32)) (pg % 32) (q % 32) used (omega arith) (omega arith))
  | inr other ↦
      let pages : (q == pg) ≡ false = ground arith in
      is_free-bit (mark_page pg used s) q ∙ rw (other, pages, is_free-bit s q)
]

pub is_free-mark_range :
    (s : Pages) (pg n q : ℕ) (used : Bool)
    → is_free (mark_range pg n used s) q
      ≡ (if leb pg q && ltb q (pg + n) then not used else is_free s q)
unfolding mark_range
is_free-mark_range s pg zero q used = ground arith
is_free-mark_range s pg (suc n) q used = ground (
  arith,
  is_free-mark_range (mark_page pg used s) (pg + 1) n q used,
  is_free-mark_page s pg q used,
)
