-- ===== src/Number/Leading.antt =====
-- The decimal digits that `utoa` of src/libc/stdlib.c writes: only digits, and no zero first.
use boss.Prelude.{
  ℕ, zero, suc, ◌/◌, ◌%◌, ◌≤◌, ◌<◌, ◌≡◌, refl, true, false, inl, inr, Bool-cases, List, [], ◌∷◌,
  ◌==◌, arith,
}
use boss.Text.{isdigit}
use boss.Number.{digit_char, push_digits, utoa}

pub data AllDigits : List ℕ → Type 0 where
  nil : AllDigits []
  cons : {c : ℕ} {s : List ℕ} → isdigit c ≡ true → AllDigits s → AllDigits (c ∷ s)

-- A digit that is not 0, and then only digits.
pub record IsLed (s : List ℕ) : Type 0 where
  pub first : ℕ
  pub others : List ℕ
  pub whole : s ≡ first ∷ others
  pub digit : isdigit first ≡ true
  pub not_zero : (first == b'0') ≡ false
  pub digits : AllDigits others

digit_char-isdigit : (d : ℕ) → d < 10 → isdigit (digit_char d) ≡ true
unfolding digit_char
digit_char-isdigit d h = ground arith

digit_char-not_zero : (d : ℕ) → d < 10 → 0 < d → (digit_char d == b'0') ≡ false
unfolding digit_char
digit_char-not_zero d h k = ground arith

stop : (fuel : ℕ) (s : List ℕ) → push_digits 10 fuel 0 s ≡ s
unfolding push_digits
stop zero s = refl
stop (suc fuel) s = refl

push_digits-IsLed :
    (fuel val : ℕ) (acc : List ℕ)
    → 0 < val
    → val ≤ fuel
    → AllDigits acc
    → IsLed (push_digits 10 fuel val acc)
unfolding push_digits
push_digits-IsLed zero val acc h k ok = absurd (omega arith)
push_digits-IsLed (suc fuel) val acc h k ok =
    let some_left : (val == 0) ≡ false = ground arith in
    let c = digit_char (val % 10) in
    let digit = digit_char-isdigit (val % 10) (omega arith) in
    elim (Bool-cases (val / 10 == 0)) [
      | inl e ↦
          (let none_left : val / 10 ≡ 0 = ground arith in
            rw (some_left, push_digits, none_left, stop fuel (c ∷ acc))
              (record {
                first = c;
                others = acc;
                whole = refl;
                digit = digit;
                not_zero = digit_char-not_zero (val % 10) (omega arith) (ground arith);
                digits = ok;
              }))
      | inr e ↦
          rw (some_left, push_digits)
            (push_digits-IsLed fuel (val / 10) (c ∷ acc) (ground arith) (omega arith)
              (cons digit ok))
    ]

pub utoa-IsLed : (w : ℕ) → 0 < w → IsLed (utoa w 10)
unfolding utoa
utoa-IsLed w h =
    let some_left : (w == 0) ≡ false = ground arith in
    rw some_left (push_digits-IsLed w w [] h (omega arith) nil)
