-- ===== src/Number/Tests.antt =====
-- Numbers of src/libc/stdlib.c on concrete inputs, and the theorems at such inputs.
use boss.Prelude.{◌≡◌, refl, [], ◌∷◌, ◌++◌, negsuc, arith}
use boss.Number.{utoa, push_digits, digit_char, digit_value, itoa, strtol}
use boss.Number.RoundTrip.{strtol-itoa}

hexadecimal : utoa 0x2f 16 ≡ b'2' ∷ b'f' ∷ []
unfolding utoa push_digits digit_char
hexadecimal = refl

strtol-itoa_example : strtol (itoa (negsuc 46) 16 ++ b' ' ∷ []) 16 ≡ (negsuc 46, b' ' ∷ [])
unfolding digit_value itoa utoa push_digits
strtol-itoa_example =
    strtol-itoa (negsuc 46) 16 (b' ' ∷ []) (omega arith) (omega arith) (omega arith) (omega arith)
      refl
