-- ===== src/Number/RoundTrip.antt =====
-- src/libc/stdlib.c: `strtol` reads what `itoa` and `utoa` write.
use boss.Prelude.{
  ℕ, zero, suc, ◌+◌, ◌*◌, ◌/◌, ◌-◌, ◌%◌, ◌^◌, ◌≤◌, ◌<◌, ◌≡◌, refl, ◌∙◌, ap, Bool, true, false, inl,
  inr, none, some, List, [], ◌∷◌, ◌++◌, length, ltb, leb, ◌==◌, ℤ, pos, negsuc, Bool-cases, arith,
}
use native.Mathlib.Nat.{div-add-mod, mod-lt}
use boss.Number.{
  digit_value, scan, scan_digits, skip_space, find_base, take_sign, word_int, strtol, digit_char,
  push_digits, utoa, itoa, atoi,
}

digit_value-digit_char : (d : ℕ) → d < 16 → digit_value (digit_char d) ≡ some d
unfolding digit_value digit_char
digit_value-digit_char d h = ground arith

mod_small : (n : ℕ) → n < 2 ^ 32 → n % 2 ^ 32 ≡ n
mod_small n h = omega arith

scan_one :
    (base acc d : ℕ) (valid : Bool) (s : List ℕ)
    → d < base
    → base ≤ 16
    → acc * base + d < 2 ^ 32
    → scan_digits base acc valid (digit_char d ∷ s) ≡ scan_digits base (acc * base + d) true s
unfolding scan_digits
scan_one base acc d valid s h k small =
    let in_base : leb base d ≡ false = ground arith in
    let whole : (acc * base + d) % 2 ^ 32 ≡ acc * base + d = mod_small (acc * base + d) small in
    rw (digit_value-digit_char d (omega arith), scan_digits, in_base, scan_digits)
      (ap (λ a. scan_digits base a true s) whole)

push_digits-zero : (base fuel : ℕ) (s : List ℕ) → push_digits base fuel 0 s ≡ s
unfolding push_digits
push_digits-zero base zero s = refl
push_digits-zero base (suc fuel) s = refl

div_mod : (a b : ℕ) → a / b * b + a % b ≡ a
div_mod a b = grind (arith, div-add-mod)

div_less : (a b : ℕ) → 2 ≤ b → 0 < a → a / b < a
div_less a b h p = grind arith

-- Scanning the digits of a number and then `s` is scanning `s` from that number on.
scan-push_digits :
    (base fuel val : ℕ) (valid : Bool) (s : List ℕ)
    → 2 ≤ base
    → base ≤ 16
    → val ≤ fuel
    → 0 < val
    → val < 2 ^ 32
    → scan_digits base 0 valid (push_digits base fuel val s) ≡ scan_digits base val true s
unfolding push_digits
scan-push_digits base zero val valid s lo hi f p small = absurd (omega arith)
scan-push_digits base (suc fuel) val valid s lo hi f p small =
    let not_zero : (val == 0) ≡ false = ground arith in
    let whole : val / base * base + val % base ≡ val = div_mod val base in
    let digit : val % base < base = mod-lt val (omega arith) in
    let less : val / base < val = div_less val base lo p in
    let q = val / base in
    let c = digit_char (val % base) in
    rw (not_zero, push_digits)
      (elim (Bool-cases (q == 0)) [
        | inl last ↦
            let e : q ≡ 0 = ground arith in
            let d : 0 * base + val % base ≡ val = ground arith in
            rw (e, push_digits-zero base fuel (c ∷ s))
              (scan_one base 0 (val % base) valid s digit hi (omega (arith, d, small))
                ∙ ap (λ a. scan_digits base a true s) d)
        | inr more ↦
            scan-push_digits base fuel q valid (c ∷ s) lo hi (omega arith) (ground arith)
              (omega arith)
            ∙ scan_one base q (val % base) true s digit hi (omega (arith, whole, small))
            ∙ ap (λ a. scan_digits base a true s) whole
      ])

push_digits-append :
    (base fuel val : ℕ) (r s : List ℕ)
    → push_digits base fuel val r ++ s ≡ push_digits base fuel val (r ++ s)
unfolding push_digits
push_digits-append base zero val r s = refl
push_digits-append base (suc fuel) val r s = elim (Bool-cases (val == 0)) [
  | inl done ↦ rw (done, push_digits)
  | inr more ↦
      rw (more, push_digits)
        (push_digits-append base fuel (val / base) (digit_char (val % base) ∷ r) s)
]

-- The text begins with a digit.
push_digits_head :
    (base fuel val d : ℕ) (s : List ℕ)
    → 2 ≤ base
    → d < base
    → (e : ℕ) × (r : List ℕ) × (push_digits base fuel val (digit_char d ∷ s) ≡ digit_char e ∷ r)
      × (e < base)
unfolding push_digits
push_digits_head base zero val d s lo h = (d, s, refl, h)
push_digits_head base (suc fuel) val d s lo h = elim (Bool-cases (val == 0)) [
  | inl done ↦ (d, s, rw (done, push_digits), h)
  | inr more ↦
      let (e, r, p, l) =
        push_digits_head base fuel (val / base) (val % base) (digit_char d ∷ s) lo
          (mod-lt val (omega arith)) in
      (e, r, rw (more, push_digits) p, l)
]

utoa_pos : (base n : ℕ) → 0 < n → utoa n base ≡ push_digits base n n []
unfolding utoa
utoa_pos base n h = let more : (n == 0) ≡ false = ground arith in rw more

utoa_head :
    (base n : ℕ) (s : List ℕ)
    → 2 ≤ base
    → (e : ℕ) × (r : List ℕ) × (utoa n base ++ s ≡ digit_char e ∷ r) × (e < base)
unfolding push_digits
utoa_head base zero s lo = (0, s, unfold utoa digit_char in refl, omega arith)
utoa_head base (suc n) s lo =
    let (e, r, p, l) =
      push_digits_head base n (suc n / base) (suc n % base) s lo (mod-lt (suc n) (omega arith)) in
    let more : (suc n == 0) ≡ false = ground arith in
    (
      e,
      r,
      ap (λ t. t ++ s) (utoa_pos base (suc n) (omega arith))
          ∙ rw (more, push_digits)
              (push_digits-append base n (suc n / base) (digit_char (suc n % base) ∷ []) s ∙ p),
      l,
    )

-- What stops the scan: the end of the text, or a byte that is no digit.
abbrev pub Stops : List ℕ → Type 0
Stops [] = Unit
Stops (c ∷ s) = digit_value c ≡ none

scan-Stops : (base acc : ℕ) (s : List ℕ) → Stops s → scan_digits base acc true s ≡ scan acc true s
unfolding scan_digits
scan-Stops base acc [] h = refl
scan-Stops base acc (c ∷ s) h = rw (h, scan_digits)

-- The scan of digits ends before `s`.
abbrev pub Ends : ℕ → List ℕ → Type 0
Ends base s = (acc : ℕ) → scan_digits base acc true s ≡ scan acc true s

scan-utoa :
    (base n : ℕ) (s : List ℕ)
    → 2 ≤ base
    → base ≤ 16
    → n < 2 ^ 32
    → Ends base s
    → scan_digits base 0 false (utoa n base ++ s) ≡ scan n true s
scan-utoa base zero s lo hi small h =
    let none_yet : 0 * base + 0 ≡ 0 = omega arith in
    unfold utoa digit_char in
    scan_one base 0 0 false s (omega arith) hi (omega (arith, none_yet)) ∙ rw none_yet (h 0)
scan-utoa base (suc n) s lo hi small h =
    rw (utoa_pos base (suc n) (omega arith), push_digits-append base (suc n) (suc n) [] s)
      (scan-push_digits base (suc n) (suc n) false s lo hi (omega arith) (omega arith) small
        ∙ h (suc n))

plain_head :
    (e : ℕ) (r : List ℕ)
    → e < 16
    → (skip_space (digit_char e ∷ r) ≡ digit_char e ∷ r)
      × (take_sign (digit_char e ∷ r) ≡ (false, digit_char e ∷ r))
unfolding skip_space take_sign digit_char
plain_head e r h = (ground arith, ground arith)

-- The numbers whose negative is an `int` too.
abbrev pub IsSmall : ℤ → Type 0
IsSmall (pos n) = n < 2 ^ 31
IsSmall (negsuc n) = n + 1 < 2 ^ 31

word_int-pos : (n : ℕ) → n < 2 ^ 31 → word_int n ≡ pos n
unfolding word_int
word_int-pos n h = let low : ltb n (2 ^ 31) ≡ true = ground arith in rw low

word_int-negsuc : (n : ℕ) → n + 1 < 2 ^ 31 → word_int ((2 ^ 32 - (n + 1)) % 2 ^ 32) ≡ negsuc n
unfolding word_int
word_int-negsuc n h =
    let w = (2 ^ 32 - (n + 1)) % 2 ^ 32 in
    let high : ltb w (2 ^ 31) ≡ false = ground arith in
    let back : 2 ^ 32 - 1 - w ≡ n = omega arith in rw high (ap negsuc back)

pub strtol-itoa-Ends :
    (v : ℤ) (base : ℕ) (s : List ℕ)
    → 2 ≤ base
    → base ≤ 16
    → IsSmall v
    → Ends base s
    → strtol (itoa v base ++ s) base ≡ (v, s)
unfolding strtol itoa take_sign scan_digits skip_space
strtol-itoa-Ends (pos n) base s lo hi small h =
    let (e, r, p, l) = utoa_head base n s lo in
    let (skip, sign) = plain_head e r (omega arith) in
    let given : (base == 0) ≡ false = ground arith in
    let skip' : skip_space (utoa n base ++ s) ≡ utoa n base ++ s = rw p skip in
    let sign' : take_sign (utoa n base ++ s) ≡ (false, utoa n base ++ s) = rw p sign in
    rw (given, skip', sign', scan-utoa base n s lo hi (omega arith) h)
      (ap (λ v. (v, s)) (word_int-pos n small))
strtol-itoa-Ends (negsuc n) base s lo hi small h =
    let given : (base == 0) ≡ false = ground arith in
    let other : (n + 1 == 2 ^ 31) ≡ false = ground arith in
    rw (given, other, scan-utoa base (n + 1) s lo hi (omega arith) h)
      (ap (λ v. (v, s)) (word_int-negsuc n small))

-- In every base from 2 to 16, `strtol` reads back the number that `itoa` has written, if it is above
-- the least `int` and at most the greatest and has at most 16 characters with its sign, and stops
-- exactly at the text behind it, if that is empty or begins with no digit.
pub strtol-itoa :
    (v : ℤ) (base : ℕ) (s : List ℕ)
    → 2 ≤ base
    → base ≤ 16
    → IsSmall v
    → length (itoa v base) ≤ 16
    → Stops s
    → strtol (itoa v base ++ s) base ≡ (v, s)
strtol-itoa v base s lo hi small room h =
    strtol-itoa-Ends v base s lo hi small (λ acc. scan-Stops base acc s h)

pub atoi-utoa : (w : ℕ) (s : List ℕ) → w < 2 ^ 31 → Ends 10 s → atoi (utoa w 10 ++ s) ≡ pos w
unfolding atoi itoa
atoi-utoa w s small h =
    ap (λ r. r.0) (strtol-itoa-Ends (pos w) 10 s (omega arith) (omega arith) small h)

-- A hexadecimal prefix is not skipped: with base 0 the scan of such a text stops at its `x`.
pub strtol_hex_prefix : (s : List ℕ) → strtol (b'0' ∷ b'x' ∷ s) 0 ≡ (pos 0, b'x' ∷ s)
unfolding strtol scan_digits digit_value skip_space take_sign find_base word_int
strtol_hex_prefix s = refl
