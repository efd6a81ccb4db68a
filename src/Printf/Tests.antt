-- ===== src/Printf/Tests.antt =====
-- The printf family of src/libc/stdio.c on concrete formats.
use boss.Prelude.{
  ℕ, ◌+◌, ◌≡◌, refl, true, false, Option, none, some, List, [], ◌∷◌, ◌++◌, length, inr, arith,
}
use boss.Number.{
  word_int, utoa, itoa, push_digits, digit_char, atoi, scan_digits, digit_value, strtol, take_sign,
  skip_space,
}
use boss.Console.{Console}
use boss.Console.Shown.{Terminal, type_text}
use boss.Console.Printing.{IsReady}
use boss.Printf.{
  Arg, word, signed, conv_of, is_negative, digits_of, Printer, put_bytes, put_pad, put_field,
  put_number, prepare, put_arg, next_arg, restored, convert, restore, set_flag, skip_digits,
  printf_loop, intern_printf, to_screen, to_buffer,
}
use boss.Printf.Directives.{Directive, Item, lit, directive, format_of}
use boss.Printf.Rendering.{Renders, fresh, done, plain, filled}
use boss.Printf.Screen.{printf-IsReady}
use boss.Printf.Buffer.{HoldsText, intern_printf-HoldsText}
use boss.Printf.Overrun.{nil, cons, intern_printf_plain}

-- `n%04d`, and 42.
abbrev four_wide : Directive
four_wide = record {
  alt = false;
  plus = false;
  minus = false;
  zeros = true;
  width = 4;
  conv = signed;
}

abbrev items : List Item
items = lit b'n' ∷ directive four_wide ∷ []

abbrev args : List Arg
args = word 42 ∷ []

abbrev text : List ℕ
text = b'n' ∷ b'0' ∷ b'0' ∷ b'4' ∷ b'2' ∷ []

items-Renders : Renders fresh items args text
unfolding word_int utoa itoa push_digits digit_char is_negative
items-Renders = plain refl (filled (omega arith) refl refl done refl)

abbrev screen : Console
screen = record {
  vram = λ i. 0;
  cursor_x = 0;
  cursor_y = 0;
  txattr = 7;
  start_line = 0;
  cy0 = 13;
  cy1 = 14;
  curvis = 1;
  scr_on = true;
  crtc = λ r. 0;
  sent = [];
}

abbrev blank : Terminal
blank = record { cells = λ row col. 0; x = 0; y = 0 }

screen-IsReady : IsReady (1 + length text) 7 screen blank
screen-IsReady = record {
  on_screen = record {
    lined = record { row = omega arith; last = omega arith; start_low = refl; start_high = refl };
    column = omega arith;
    place_low = refl;
    place_high = refl;
  };
  is_on = refl;
  colours = refl;
  room = omega arith;
  shown = record { cell_at = λ row col hr hc. refl; at_x = refl; at_y = refl };
}

printf-IsReady_example :
    (q : Printer to_screen) × (intern_printf to_screen (format_of items) args screen ≡ some q)
    × IsReady 1 7 q.dest (type_text 7 text blank)
    × (q.cnum ≡ length text)
printf-IsReady_example =
    printf-IsReady items args text 1 7 screen blank items-Renders
      (refl, (refl, (refl, (refl, (refl, tt))))) screen-IsReady

intern_printf-HoldsText_example :
    (q : Printer (to_buffer 100 6)) × (intern_printf
        (to_buffer 100 6)
        (format_of items)
        args
        (λ i. i)
      ≡ some q)
    × HoldsText 100 (λ i. i) text q.dest
    × (q.cnum ≡ length text)
intern_printf-HoldsText_example =
    intern_printf-HoldsText 100 (λ i. i) 6 items args text (omega arith) items-Renders
      (inr (omega arith))

abbrev abc : List ℕ
abc = b'a' ∷ b'b' ∷ b'c' ∷ []

intern_printf_plain_example :
    (q : Printer (to_buffer 100 2)) × (intern_printf (to_buffer 100 2) abc [] (λ i. i) ≡ some q)
    × HoldsText 100 (λ i. i) abc q.dest
    × (q.cnum ≡ length abc)
intern_printf_plain_example =
    intern_printf_plain 100 2 (λ i. i) abc (cons refl (cons refl (cons refl nil)))

-- The text that a format prints.
abbrev to_text : ℕ → List ℕ → List ℕ → List ℕ
to_text cnum s t = t ++ s

abbrev printed : Option (Printer to_text) → Option (List ℕ)
printed none = none
printed (some q) = some q.dest

-- `%d` prints -1 as an unsigned number behind `%u`.
stays_unsigned :
    printed
      (intern_printf to_text (b'%' ∷ b'u' ∷ b'%' ∷ b'd' ∷ []) (word 1 ∷ word 0xffffffff ∷ []) [])
    ≡ some (b'1' ∷ utoa 0xffffffff 10)
unfolding intern_printf printf_loop conv_of convert next_arg put_arg prepare restored restore
    put_number put_field put_pad put_bytes digits_of is_negative utoa push_digits digit_char
stays_unsigned = refl

-- `%%` prints nothing, and what follows is still read as a conversion: `d` takes an argument.
no_percent :
    printed (intern_printf to_text (b'%' ∷ b'%' ∷ b'd' ∷ []) (word 7 ∷ []) []) ≡ some (b'7' ∷ [])
unfolding intern_printf printf_loop conv_of convert next_arg put_arg prepare restored restore
    put_number put_field put_pad put_bytes digits_of is_negative word_int utoa itoa push_digits
    digit_char
no_percent = refl

-- Zeros are padded in front of the sign.
zeros_first :
    printed (intern_printf to_text (b'%' ∷ b'0' ∷ b'4' ∷ b'd' ∷ []) (word 0xffffffff ∷ []) [])
    ≡ some (b'0' ∷ b'0' ∷ b'-' ∷ b'1' ∷ [])
unfolding intern_printf printf_loop conv_of convert next_arg put_arg prepare restored restore
    put_number put_field put_pad put_bytes digits_of is_negative word_int utoa itoa push_digits
    digit_char set_flag skip_digits atoi strtol take_sign skip_space scan_digits digit_value
zeros_first = refl
