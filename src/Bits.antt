-- ===== src/Bits.antt =====
-- Bits of machine words at variables: what `&`, `|` and masks of one bit do to each bit.
use Prim.Native.Nat.{digits, bit_and, bit_or, bit_and-bitwise, bit_or-bitwise}
use native.Mathlib.Nat.{
  pow-suc, div-div-eq-div-mul, mul_left_comm, mod-eq-sub-div-mul, div-mul-le_self,
}
use boss.Prelude.{
  ℕ, zero, suc, ◌+◌, ◌-◌, ◌*◌, ◌/◌, ◌%◌, ◌^◌, ◌≤◌, ◌<◌, ◌≡◌, refl, sym, ◌∙◌, min, max, true, Bool,
  ◌==◌, ==_iff, if◌then◌else◌, all_below, all_below_sound, arith,
}

-- Bit `k` of a word, 0 or 1.
unfoldable pub bit : ℕ → ℕ → ℕ
bit w zero = w % 2
bit w (suc k) = bit (w / 2) k

pub bit_le : (w k : ℕ) → bit w k ≤ 1
unfolding bit
bit_le w zero = omega arith
bit_le w (suc k) = bit_le (w / 2) k

-- Both operations are the same recursion on digits, with the first word as fuel.
module _ (last : ℕ → ℕ) (op : ℕ → ℕ → ℕ) where
  enough_fuel : (n m x y : ℕ) → x ≤ n → x ≤ m → digits last op n x y ≡ digits last op m x y
  enough_fuel zero zero x y hn hm = refl
  enough_fuel zero (suc m) (suc x) y hn hm = absurd (omega arith)
  enough_fuel (suc n) zero (suc x) y hn hm = absurd (omega arith)
  enough_fuel zero (suc m) zero y hn hm = refl
  enough_fuel (suc n) zero zero y hn hm = refl
  enough_fuel (suc n) (suc m) zero y hn hm = refl
  enough_fuel (suc n) (suc m) (suc x) y hn hm =
      let smaller = enough_fuel n m (suc x / 2) (y / 2) (omega arith) (omega arith) in
      omega (arith, smaller)

pub bit_and_step : (x y : ℕ) → bit_and x y ≡ min (x % 2) (y % 2) + 2 * bit_and (x / 2) (y / 2)
bit_and_step (suc x) y =
    let half : ℕ = suc x / 2 in
    let smaller = enough_fuel (λ _. zero) min x half half (y / 2) (omega arith) (omega arith) in
    omega (arith, smaller, bit_and-bitwise (suc x) y, bit_and-bitwise half (y / 2))
bit_and_step zero y = omega (arith, bit_and-bitwise 0 (y / 2), bit_and-bitwise 0 y)

pub bit_or_step : (x y : ℕ) → bit_or x y ≡ max (x % 2) (y % 2) + 2 * bit_or (x / 2) (y / 2)
bit_or_step (suc x) y =
    let half : ℕ = suc x / 2 in
    let smaller = enough_fuel (λ d. d) max x half half (y / 2) (omega arith) (omega arith) in
    omega (arith, smaller, bit_or-bitwise (suc x) y, bit_or-bitwise half (y / 2))
bit_or_step zero y = omega (arith, bit_or-bitwise 0 (y / 2), bit_or-bitwise 0 y)

pub bit-bit_and : (a b k : ℕ) → bit (bit_and a b) k ≡ min (bit a k) (bit b k)
unfolding bit
bit-bit_and a b zero = omega (arith, bit_and_step a b)
bit-bit_and a b (suc k) =
    let half : bit_and a b / 2 ≡ bit_and (a / 2) (b / 2) = omega (arith, bit_and_step a b) in
    rw half (bit-bit_and (a / 2) (b / 2) k)

pub bit-bit_or : (a b k : ℕ) → bit (bit_or a b) k ≡ max (bit a k) (bit b k)
unfolding bit
bit-bit_or a b zero = omega (arith, bit_or_step a b)
bit-bit_or a b (suc k) =
    let half : bit_or a b / 2 ≡ bit_or (a / 2) (b / 2) = omega (arith, bit_or_step a b) in
    rw half (bit-bit_or (a / 2) (b / 2) k)

abbrev ones32 : ℕ
ones32 = 2 ^ 32 - 1

mask_row : ℕ → ℕ → Bool
mask_row j k = bit (2 ^ j) k == (if j == k then 1 else 0)

mask_table : all_below 32 (λ j. all_below 32 (mask_row j)) ≡ true
unfolding all_below mask_row bit
mask_table = refl

clear_row : ℕ → ℕ → Bool
clear_row j k = bit (ones32 - 2 ^ j) k == (if j == k then 0 else 1)

clear_table : all_below 32 (λ j. all_below 32 (clear_row j)) ≡ true
unfolding all_below clear_row bit
clear_table = refl

ones_row : ℕ → Bool
ones_row k = bit ones32 k == 1

ones_table : all_below 32 ones_row ≡ true
unfolding all_below ones_row bit
ones_table = refl

square_sound :
    (n : ℕ) (row : ℕ → ℕ → Bool)
    → all_below n (λ j. all_below n (row j)) ≡ true
    → (j k : ℕ) → j < n
    → k < n
    → row j k ≡ true
square_sound n row table j k hj hk =
    all_below_sound n (row j) k hk (all_below_sound n (λ j. all_below n (row j)) j hj table)

-- A mask of one bit, its complement in 32 bits, and the word of 32 ones.
pub bit-pow : (j k : ℕ) → j < 32 → k < 32 → bit (2 ^ j) k ≡ (if j == k then 1 else 0)
unfolding mask_row
bit-pow j k hj hk = (==_iff _ _).0 (square_sound 32 mask_row mask_table j k hj hk)

pub bit_clear_mask :
    (j k : ℕ) → j < 32 → k < 32 → bit (2 ^ 32 - 1 - 2 ^ j) k ≡ (if j == k then 0 else 1)
unfolding clear_row
bit_clear_mask j k hj hk = (==_iff _ _).0 (square_sound 32 clear_row clear_table j k hj hk)

pub bit_ones : (k : ℕ) → k < 32 → bit (2 ^ 32 - 1) k ≡ 1
unfolding ones_row
bit_ones k hk = (==_iff _ _).0 (all_below_sound 32 ones_row k hk ones_table)

-- `w & (1 << j)` is the bit, at its weight.
bit_and-zero : (n a : ℕ) → a ≤ n → bit_and a 0 ≡ 0
bit_and-zero zero zero h = refl
bit_and-zero (suc n) a h =
    let smaller = bit_and-zero n (a / 2) (omega arith) in omega (arith, smaller, bit_and_step a 0)
bit_and-zero zero (suc a) h = absurd (omega arith)

pub bit_and-pow : (j a : ℕ) → bit_and a (2 ^ j) ≡ bit a j * 2 ^ j
unfolding bit
bit_and-pow zero a = omega (arith, bit_and_step a 1, bit_and-zero (a / 2) (a / 2) (omega arith))
bit_and-pow (suc j) a =
    let half : 2 ^ suc j / 2 ≡ 2 ^ j = omega (arith, pow-suc 2 j) in
    let even : 2 ^ suc j % 2 ≡ 0 = omega (arith, pow-suc 2 j) in
    bit_and_step a (2 ^ suc j) ∙ rw (half, even, bit_and-pow j (a / 2), pow-suc) (omega arith)

pub pow_pos : (k : ℕ) → 0 < 2 ^ k
pow_pos zero = omega arith
pow_pos (suc k) = omega (arith, pow-suc 2 k, pow_pos k)

-- A mask of `k` ones takes the remainder.
pub bit_and-ones : (k x : ℕ) → bit_and x (2 ^ k - 1) ≡ x % 2 ^ k
bit_and-ones zero x = omega (arith, bit_and-zero x x (omega arith))
bit_and-ones (suc k) x =
    let power : ℕ = 2 ^ k in
    let some_power : 0 < power = pow_pos k in
    let double : 2 ^ suc k ≡ 2 * power = omega (arith, pow-suc 2 k) in
    let half : (2 * power - 1) / 2 ≡ power - 1 = omega arith in
    let odd : (2 * power - 1) % 2 ≡ 1 = omega arith in
    let q : ℕ = x / 2 / power in
    let quot : x / (2 * power) ≡ q = sym (div-div-eq-div-mul x 2 power) in
    let twice : q * (2 * power) ≡ 2 * (q * power) = mul_left_comm q 2 power in
    rw double (
      bit_and_step x (2 * power - 1)
      ∙ rw
          (
            half,
            odd,
            bit_and-ones k (x / 2),
            mod-eq-sub-div-mul (x / 2) power,
            mod-eq-sub-div-mul x (2 * power),
            quot,
            twice,
          )
          (omega (arith, div-mul-le_self (x / 2) power)))
