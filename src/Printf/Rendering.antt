-- ===== src/Printf/Rendering.antt =====
-- What a format of src/libc/stdio.c prints: each directive on its own, with what the code keeps from
-- one conversion to the next.
use boss.Prelude.{
  ℕ, ◌%◌, ◌^◌, ◌<◌, ◌≡◌, Bool, true, false, ◌&&◌, ◌||◌, not, Option, none, some, List, [], ◌∷◌,
  ◌++◌, map, if◌then◌else◌, ◌==◌,
}
use boss.Text.{toupper}
use boss.Number.{word_int, utoa, itoa}
use boss.Printf.{
  Arg, word, str, place, Conv, upper_hex, hex, octal, unsigned, signed, char, string, count,
  ignored, is_negative,
}
use boss.Printf.Fields.{field_text}
use boss.Printf.Directives.{Directive, Item, lit, directive}

-- The flags that outlive a conversion.
pub record Sticky : Type 0 where
  pub plus : Bool
  pub minus : Bool
  pub unsig : Bool

abbrev pub fresh : Sticky
fresh = record { plus = false; minus = false; unsig = false }

abbrev pub forces_unsigned : Conv → Bool
forces_unsigned upper_hex = true
forces_unsigned hex = true
forces_unsigned unsigned = true
forces_unsigned _ = false

abbrev pub after : Conv → Directive → Sticky → Sticky
after k d st = record {
  plus = d.plus || st.plus;
  minus = d.minus || st.minus;
  unsig = forces_unsigned k || st.unsig;
}

abbrev pub base_of : Conv → ℕ
base_of upper_hex = 16
base_of hex = 16
base_of octal = 8
base_of _ = 10

abbrev pub prefix_of : Conv → List ℕ
prefix_of upper_hex = b'0' ∷ b'x' ∷ []
prefix_of hex = b'0' ∷ b'x' ∷ []
prefix_of octal = b'0' ∷ []
prefix_of _ = []

-- The digits of a word, and its field, where `st` holds the flags with those of the directive.
abbrev pub number_text : Conv → Sticky → ℕ → List ℕ
number_text k st n = if st.unsig then utoa n (base_of k) else itoa (word_int n) (base_of k)

abbrev pub pad_of : Directive → ℕ
pad_of d = if d.zeros then b'0' else b' '

abbrev pub number_field : Conv → Directive → Sticky → List ℕ → ℕ → List ℕ
number_field k d st digits n =
    (if d.alt then prefix_of k else [])
    ++ field_text st.minus (pad_of d) d.width
        (if not st.unsig && st.plus && not (is_negative n) then b'+' ∷ [] else []) digits

-- The text that a directive makes of its argument.
abbrev pub arg_text : Conv → Directive → Sticky → Arg → Option (List ℕ)
arg_text char d st (word n) = some (n % 256 ∷ [])
arg_text string d st (str s) = some (field_text st.minus (pad_of d) d.width [] s)
arg_text count d st (place a) = some []
arg_text upper_hex d st (word n) =
    some (number_field upper_hex d st (map toupper (number_text upper_hex st n)) n)
arg_text hex d st (word n) = some (number_field hex d st (number_text hex st n) n)
arg_text octal d st (word n) = some (number_field octal d st (number_text octal st n) n)
arg_text unsigned d st (word n) = some (number_field unsigned d st (number_text unsigned st n) n)
arg_text signed d st (word n) = some (number_field signed d st (number_text signed st n) n)
arg_text _ d st _ = none

-- The least `int` as a signed number, which `itoa` does not write as digits.
abbrev pub is_least : Conv → Sticky → Arg → Bool
is_least char st a = false
is_least string st a = false
is_least count st a = false
is_least k st (word n) = not st.unsig && (n == 2 ^ 31)
is_least k st a = false

-- The text of a whole format. Literal characters stand for themselves, a directive that the code
-- knows but does not print stands for nothing, and any other takes an argument.
-- Widths are `int`s, and the least `int` is not printed as a signed number.
pub data Renders : Sticky → List Item → List Arg → List ℕ → Type 0 where
  done : {st : Sticky} {args : List Arg} → Renders st [] args []
  plain :
      {st : Sticky} {c : ℕ} {items : List Item} {args : List Arg} {text : List ℕ}
      → (c == b'%') ≡ false
      → Renders st items args text
      → Renders st (lit c ∷ items) args (c ∷ text)
  skipped :
      {st : Sticky} {d : Directive} {items : List Item} {args : List Arg} {text : List ℕ}
      → d.width < 2 ^ 31
      → d.conv ≡ ignored
      → Renders (after d.conv d st) items args text
      → Renders st (directive d ∷ items) args text
  filled :
      {st : Sticky} {d : Directive} {items : List Item} {a : Arg} {args : List Arg}
      {s text whole : List ℕ}
      → d.width < 2 ^ 31
      → is_least d.conv (after d.conv d st) a ≡ false
      → arg_text d.conv d (after d.conv d st) a ≡ some s
      → Renders (after d.conv d st) items args text
      → whole ≡ s ++ text
      → Renders st (directive d ∷ items) (a ∷ args) whole
