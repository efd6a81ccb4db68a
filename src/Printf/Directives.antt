-- ===== src/Printf/Directives.antt =====
-- Formats as lists of characters and directives, and how the loop of `intern_printf` in
-- src/libc/stdio.c reads the flags and the width of a directive.
use boss.Prelude.{
  ℕ, zero, suc, ◌^◌, ◌<◌, ◌≡◌, refl, sym, ◌∙◌, ap, Bool, true, false, none, some, List, [], ◌∷◌,
  ◌++◌, length, length-append, ◌==◌, ◌&&◌, not, if◌then◌else◌, pos, pos_part, arith,
}
use boss.Text.{isdigit}
use boss.Number.{utoa, atoi, scan_digits, digit_value}
use boss.Number.Leading.{AllDigits, nil, cons, utoa-IsLed}
use boss.Number.RoundTrip.{Ends, atoi-utoa}
use boss.Printf.{
  Conv, upper_hex, hex, octal, unsigned, signed, char, string, count, ignored, conv_of, set_flag,
  skip_digits, Printer, printf_loop, convert, put_bytes,
}

-- What stands between `%` and the end of a conversion: the flags `#`, `+`, `-` and `0`, a width or 0
-- for none, and the conversion.
pub record Directive : Type 0 where
  pub alt : Bool
  pub plus : Bool
  pub minus : Bool
  pub zeros : Bool
  pub width : ℕ
  pub conv : Conv

pub data Item : Type 0 where
  lit : ℕ → Item
  directive : Directive → Item

unfoldable pub letter_of : Conv → ℕ
letter_of upper_hex = b'X'
letter_of hex = b'x'
letter_of octal = b'o'
letter_of unsigned = b'u'
letter_of signed = b'd'
letter_of char = b'c'
letter_of string = b's'
letter_of count = b'n'
letter_of ignored = b'f'

abbrev pub flag_text : Bool → ℕ → List ℕ → List ℕ
flag_text b c s = if b then c ∷ s else s

abbrev pub width_text : ℕ → List ℕ → List ℕ
width_text zero s = s
width_text (suc w) s = utoa (suc w) 10 ++ s

abbrev pub directive_text : Directive → List ℕ → List ℕ
directive_text d s =
    b'%'
    ∷ flag_text d.alt b'#' (
        flag_text d.plus b'+' (
          flag_text d.minus b'-'
            (flag_text d.zeros b'0' (width_text d.width (letter_of d.conv ∷ s)))))

abbrev pub format_of : List Item → List ℕ
format_of [] = []
format_of (lit c ∷ items) = c ∷ format_of items
format_of (directive d ∷ items) = directive_text d (format_of items)

pub conv_of-letter_of : (k : Conv) → conv_of (letter_of k) ≡ some k
unfolding conv_of letter_of
conv_of-letter_of upper_hex = refl
conv_of-letter_of hex = refl
conv_of-letter_of octal = refl
conv_of-letter_of unsigned = refl
conv_of-letter_of signed = refl
conv_of-letter_of char = refl
conv_of-letter_of string = refl
conv_of-letter_of count = refl
conv_of-letter_of ignored = refl

pub letter_plain : (k : Conv) → ((letter_of k == b'%') ≡ false) × (isdigit (letter_of k) ≡ false)
unfolding letter_of
letter_plain upper_hex = (refl, refl)
letter_plain hex = (refl, refl)
letter_plain octal = (refl, refl)
letter_plain unsigned = (refl, refl)
letter_plain signed = (refl, refl)
letter_plain char = (refl, refl)
letter_plain string = (refl, refl)
letter_plain count = (refl, refl)
letter_plain ignored = (refl, refl)

letter-Ends : (k : Conv) (s : List ℕ) → Ends 10 (letter_of k ∷ s)
unfolding letter_of scan_digits digit_value
letter-Ends upper_hex s acc = refl
letter-Ends hex s acc = refl
letter-Ends octal s acc = refl
letter-Ends unsigned s acc = refl
letter-Ends signed s acc = refl
letter-Ends char s acc = refl
letter-Ends string s acc = refl
letter-Ends count s acc = refl
letter-Ends ignored s acc = refl

-- A digit is neither `%` nor a conversion.
digit_plain : (c : ℕ) → isdigit c ≡ true → ((c == b'%') ≡ false) × (conv_of c ≡ none)
unfolding conv_of
digit_plain c h = (ground arith, ground arith)

skip_digits-append : (r s : List ℕ) → AllDigits r → skip_digits (r ++ s) ≡ skip_digits s
unfolding skip_digits
skip_digits-append [] s nil = refl
skip_digits-append (c ∷ r) s (cons d ok) = rw (d, skip_digits-append r s ok)

module _ {D : Type 0} (write : ℕ → List ℕ → D → D) where
  -- The loop on the rest of the format, with `fstart` set or not, ends in `q`.
  abbrev pub Runs : Bool → List ℕ → Printer write → Printer write → Type 0
  Runs fstart fmt p q =
      (fuel : ℕ) → length fmt < fuel → printf_loop write fuel fstart fmt p ≡ some q

  unfoldable pub with_flag : Bool → ℕ → Printer write → Printer write
  with_flag b c p = if b then record p { flags = set_flag c p.flags } else p

  flag_step :
      (fuel c : ℕ) (s : List ℕ) (p : Printer write)
      → (c == b'%') ≡ false
      → conv_of c ≡ none
      → (isdigit c && not (c == b'0')) ≡ false
      → printf_loop write (suc fuel) true (c ∷ s) p
        ≡ printf_loop write fuel true s (record p { flags = set_flag c p.flags })
  unfolding printf_loop
  flag_step fuel c s p percent conv digit =
      rw (percent, printf_loop, conv, printf_loop, digit, printf_loop)

  width_step :
      (fuel c : ℕ) (s : List ℕ) (p : Printer write)
      → isdigit c ≡ true
      → (c == b'0') ≡ false
      → printf_loop write (suc fuel) true (c ∷ s) p
        ≡ printf_loop write fuel true
            (skip_digits s)
            (record p { flags = record p.flags { fwidth = pos_part (atoi (c ∷ s)) } })
  unfolding printf_loop
  width_step fuel c s p digit zero_digit =
      let plain = digit_plain c digit in
      rw (plain.0, printf_loop, plain.1, printf_loop, digit, zero_digit, printf_loop)

  flag-Runs :
      (b : Bool) (c : ℕ) (s : List ℕ) (p q : Printer write)
      → (c == b'%') ≡ false
      → conv_of c ≡ none
      → (isdigit c && not (c == b'0')) ≡ false
      → Runs true s (with_flag b c p) q
      → Runs true (flag_text b c s) p q
  unfolding with_flag
  flag-Runs false c s p q percent conv digit rest fuel h = rest fuel h
  flag-Runs true c s p q percent conv digit rest zero h = absurd (omega arith)
  flag-Runs true c s p q percent conv digit rest (suc fuel) h =
      flag_step fuel c s p percent conv digit ∙ rest fuel (omega arith)

  number-Runs :
      (w : ℕ) (k : Conv) (s text : List ℕ) (p q : Printer write)
      → 0 < w
      → w < 2 ^ 31
      → text ≡ utoa w 10
      → Runs true (letter_of k ∷ s) (record p { flags = record p.flags { fwidth = w } }) q
      → Runs true (text ++ letter_of k ∷ s) p q
  unfolding skip_digits
  number-Runs w k s text p q h small e rest zero f = absurd (omega arith)
  number-Runs w k s text p q h small e rest (suc fuel) f =
      let led = utoa-IsLed w h in
      let split : text ≡ led.first ∷ led.others = e ∙ led.whole in
      let tail = led.others ++ letter_of k ∷ s in
      let read : atoi (led.first ∷ tail) ≡ pos w =
        ap (λ r. atoi (r ++ letter_of k ∷ s)) (sym led.whole)
        ∙ atoi-utoa w (letter_of k ∷ s) small (letter-Ends k s) in
      let skipped : skip_digits tail ≡ letter_of k ∷ s =
        skip_digits-append led.others (letter_of k ∷ s) led.digits ∙ rw (letter_plain k).1 in
      let step = width_step fuel led.first tail p led.digit led.not_zero in
      let short : length (letter_of k ∷ s) < fuel =
        omega (arith, ap length split, length-append text (letter_of k ∷ s)) in
      rw split (step ∙ rw (read, skipped) (rest fuel short))

  unfoldable pub with_width : ℕ → Printer write → Printer write
  with_width zero p = p
  with_width (suc w) p = record p { flags = record p.flags { fwidth = suc w } }

  width-Runs :
      (w : ℕ) (k : Conv) (s : List ℕ) (p q : Printer write)
      → w < 2 ^ 31
      → Runs true (letter_of k ∷ s) (with_width w p) q
      → Runs true (width_text w (letter_of k ∷ s)) p q
  unfolding with_width
  width-Runs zero k s p q small rest = rest
  width-Runs (suc w) k s p q small rest =
      number-Runs (suc w) k s (utoa (suc w) 10) p q (omega arith) small refl rest

  -- The state when the letter of a directive is read.
  abbrev pub with_directive : Directive → Printer write → Printer write
  with_directive d p = with_width d.width (
      with_flag d.zeros b'0'
        (with_flag d.minus b'-' (with_flag d.plus b'+' (with_flag d.alt b'#' p))))

  percent-Runs : (s : List ℕ) (p q : Printer write) → Runs true s p q → Runs false (b'%' ∷ s) p q
  unfolding printf_loop
  percent-Runs s p q rest zero h = absurd (omega arith)
  percent-Runs s p q rest (suc fuel) h = rest fuel (omega arith)

  pub directive-Runs :
      (d : Directive) (s : List ℕ) (p q : Printer write)
      → d.width < 2 ^ 31
      → Runs true (letter_of d.conv ∷ s) (with_directive d p) q
      → Runs false (directive_text d s) p q
  unfolding conv_of
  directive-Runs d s p q small rest = percent-Runs _ p q (
      flag-Runs d.alt b'#' _ p q refl refl refl (
        flag-Runs d.plus b'+' _ _ q refl refl refl (
          flag-Runs d.minus b'-' _ _ q refl refl refl (
            flag-Runs d.zeros b'0' _ _ q refl refl refl
              (width-Runs d.width d.conv s _ q small rest)))))

  pub letter-Runs :
      (k : Conv) (s : List ℕ) (p r q : Printer write)
      → convert write k p ≡ some r
      → Runs false s r q
      → Runs true (letter_of k ∷ s) p q
  unfolding printf_loop
  letter-Runs k s p r q done rest zero h = absurd (omega arith)
  letter-Runs k s p r q done rest (suc fuel) h =
      rw ((letter_plain k).0, printf_loop, conv_of-letter_of k, printf_loop, done, printf_loop)
        (rest fuel (omega arith))

  pub lit-Runs :
      (c : ℕ) (s : List ℕ) (p q : Printer write)
      → (c == b'%') ≡ false
      → Runs false s (put_bytes write (c ∷ []) p) q
      → Runs false (c ∷ s) p q
  unfolding printf_loop
  lit-Runs c s p q plain rest zero h = absurd (omega arith)
  lit-Runs c s p q plain rest (suc fuel) h = rw (plain, printf_loop) (rest fuel (omega arith))

  pub end-Runs : (p : Printer write) → Runs false [] p p
  unfolding printf_loop
  end-Runs p zero h = absurd (omega arith)
  end-Runs p (suc fuel) h = refl
