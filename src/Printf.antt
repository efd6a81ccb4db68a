-- ===== src/Printf.antt =====
-- The printf family of src/libc/stdio.c: the loop of `intern_printf` over a format, for any
-- destination. `write` is `bwrite`: it is given how many bytes have been written before, the bytes,
-- and the destination. A missing argument, or one of the wrong kind, gives `none`.
pub mod Buffer
pub mod Conversions
pub mod Directives
pub mod Fields
pub mod Letters
pub mod Output
pub mod Overrun
pub mod Rendering
pub mod Screen
mod Tests
use boss.Prelude.{
  ℕ, zero, suc, ◌+◌, ◌-◌, ◌*◌, ◌%◌, ◌^◌, ◌<◌, ◌≡◌, Bool, true, false, Option, none, some, List, [],
  ◌∷◌, ◌++◌, length, map, ltb, leb, ◌==◌, ◌&&◌, ◌||◌, not, if◌then◌else◌, ℤ, pos, negsuc, pos_part,
  get_or,
}
use boss.Text.{isdigit, toupper}
use boss.Number.{word_int, itoa, utoa, atoi}
use boss.Console.{Console, put_text}

-- What `va_arg` reads: a 32-bit word, a string, or the place where `%n` stores a number.
pub data Arg : Type 0 where
  word : ℕ → Arg
  str : List ℕ → Arg
  place : ℕ → Arg

-- The conversions, by what the `switch` does with them.
pub data Conv : Type 0 where
  upper_hex : Conv
  hex : Conv
  octal : Conv
  unsigned : Conv
  signed : Conv
  char : Conv
  string : Conv
  count : Conv
  ignored : Conv

-- IS_CONV and the cases; `%` itself is never looked up.
unfoldable pub conv_of : ℕ → Option Conv
conv_of c =
    if c == b'd' || c == b'i'
    then some signed
    else if c == b'u'
    then some unsigned
    else if c == b'x' || c == b'p'
    then some hex
    else if c == b'X'
    then some upper_hex
    else if c == b'o'
    then some octal
    else if c == b'c'
    then some char
    else if c == b's'
    then some string
    else if c == b'n'
    then some count
    else if c == b'f' || c == b'e' || c == b'E' || c == b'g' || c == b'G'
    then some ignored
    else none

-- The state of the conversion.
pub record Flags : Type 0 where
  pub base : ℕ
  pub alt : Bool
  pub fwidth : ℕ
  pub padc : ℕ
  pub sign : Bool
  pub left_align : Bool
  pub hex_caps : Bool
  pub unsig : Bool

abbrev pub start_flags : Flags
start_flags = record {
  base = 10;
  alt = false;
  fwidth = 0;
  padc = b' ';
  sign = false;
  left_align = false;
  hex_caps = false;
  unsig = false;
}

-- What the code restores after a conversion. It leaves `sign`, `left_align` and `unsig`.
unfoldable pub restore : Flags → Flags
restore f = record f { base = 10; alt = false; fwidth = 0; padc = b' '; hex_caps = false }

unfoldable pub is_negative : ℕ → Bool
is_negative n = leb (2 ^ 31) n

-- The digits in `conv_buf`.
unfoldable pub digits_of : Flags → ℕ → List ℕ
digits_of f n =
    let plain = if f.unsig then utoa n f.base else itoa (word_int n) f.base in
    if f.hex_caps then map toupper plain else plain

unfoldable pub skip_digits : List ℕ → List ℕ
skip_digits [] = []
skip_digits (c ∷ s) = if isdigit c then skip_digits s else c ∷ s

-- A character between `%` and the conversion that is no digit but 0.
unfoldable pub set_flag : ℕ → Flags → Flags
set_flag c f =
    if c == b'#'
    then record f { alt = true }
    else if c == b'+'
    then record f { sign = true }
    else if c == b'-'
    then record f { left_align = true }
    else if c == b'0'
    then record f { padc = b'0' }
    else f

module _ {D : Type 0} (write : ℕ → List ℕ → D → D) where
  pub record Printer : Type 0 where
    pub dest : D
    pub cnum : ℕ
    pub flags : Flags
    pub args : List Arg
    pub stored : List (ℕ × ℕ)

  unfoldable pub put_bytes : List ℕ → Printer → Printer
  put_bytes s p = record p { dest = write p.cnum s p.dest; cnum = p.cnum + length s }

  unfoldable pub put_pad : ℕ → Printer → Printer
  put_pad zero p = p
  put_pad (suc n) p = put_pad n (put_bytes (p.flags.padc ∷ []) p)

  -- A field: the sign `plus` and the text, which is padded to the width without the sign.
  unfoldable pub put_field : List ℕ → List ℕ → Printer → Printer
  put_field plus s p =
      let space : ℕ = p.flags.fwidth - length s in
      if p.flags.left_align
      then (let q = put_bytes s (put_bytes plus p) in
          put_pad space (record q { flags = record q.flags { padc = b' ' } }))
      else put_bytes s (put_bytes plus (put_pad space p))

  unfoldable pub put_number : ℕ → Printer → Printer
  put_number n p =
      let plus =
        if not p.flags.unsig && p.flags.sign && not (is_negative n) then b'+' ∷ [] else [] in
      put_field plus (digits_of p.flags n) p

  unfoldable pub put_prefix : List ℕ → Printer → Printer
  put_prefix s p = if p.flags.alt then put_bytes s p else p

  unfoldable pub as_hex : Printer → Printer
  as_hex p =
      let q = put_prefix (b'0' ∷ b'x' ∷ []) (record p { flags = record p.flags { base = 16 } }) in
      record q { flags = record q.flags { unsig = true } }

  -- What is done before the number is read.
  unfoldable pub prepare : Conv → Printer → Printer
  prepare upper_hex p = as_hex (record p { flags = record p.flags { hex_caps = true } })
  prepare hex p = as_hex p
  prepare octal p = put_prefix (b'0' ∷ []) (record p { flags = record p.flags { base = 8 } })
  prepare unsigned p = record p { flags = record p.flags { unsig = true } }
  prepare signed p = p
  prepare char p = p
  prepare string p = p
  prepare count p = p
  prepare ignored p = p

  -- What is done with the argument.
  unfoldable pub put_arg : Conv → Arg → Printer → Option Printer
  put_arg char (word n) p = some (put_bytes (n % 256 ∷ []) p)
  put_arg string (str s) p = some (put_field [] s p)
  put_arg count (place a) p = some (record p { stored = p.stored ++ (a, p.cnum) ∷ [] })
  put_arg upper_hex (word n) p = some (put_number n p)
  put_arg hex (word n) p = some (put_number n p)
  put_arg octal (word n) p = some (put_number n p)
  put_arg unsigned (word n) p = some (put_number n p)
  put_arg signed (word n) p = some (put_number n p)
  put_arg _ _ p = none

  unfoldable pub next_arg : Conv → Printer → Option Printer
  next_arg k p = elim p.args [
    | [] ↦ none
    | a ∷ rest ↦ put_arg k a (prepare k (record p { args = rest }))
  ]

  unfoldable pub restored : Option Printer → Option Printer
  restored none = none
  restored (some p) = some (record p { flags = restore p.flags })

  unfoldable pub convert : Conv → Printer → Option Printer
  convert k p = restored (elim k as (λ _. Option Printer) [ ignored ↦ some p | _ ↦ next_arg k p ])

  -- The loop, with whether `fstart` is set. Each round reads a character or more, so that the length
  -- of the format bounds the rounds.
  unfoldable pub printf_loop : ℕ → Bool → List ℕ → Printer → Option Printer
  printf_loop zero fstart fmt p = none
  printf_loop (suc fuel) fstart [] p = some p
  printf_loop (suc fuel) fstart (c ∷ fmt) p = elim (c == b'%') [
    | true ↦ printf_loop fuel true fmt p
    | false ↦ elim fstart [
      | false ↦ printf_loop fuel false fmt (put_bytes (c ∷ []) p)
      | true ↦ elim (conv_of c) [
        | some k ↦ elim (convert k p) [ none ↦ none | some q ↦ printf_loop fuel false fmt q ]
        | none ↦ elim (isdigit c && not (c == b'0')) [
          | true ↦
              printf_loop fuel true (skip_digits fmt)
                (record p { flags = record p.flags { fwidth = pos_part (atoi (c ∷ fmt)) } })
          | false ↦ printf_loop fuel true fmt (record p { flags = set_flag c p.flags })
        ]
      ]
    ]
  ]

  unfoldable pub intern_printf : List ℕ → List Arg → D → Option Printer
  intern_printf fmt args d =
      printf_loop (length fmt + 1) false fmt
        (record { dest = d; cnum = 0; flags = start_flags; args = args; stored = [] })

-- `bwrite` for OUT_DEF.
abbrev pub to_screen : ℕ → List ℕ → Console → Console
to_screen cnum s con = put_text s con

-- How many bytes `bwrite` copies for OUT_BUF: SZ takes `cnum` off the size, and 0 is no limit.
unfoldable pub bytes_fit : ℕ → ℕ → ℕ → ℕ
bytes_fit size cnum len =
    let room : ℕ = if size == 0 then 0 else (size + 2 ^ 32 - cnum) % 2 ^ 32 in
    if not (room == 0) && leb room len then room else len

-- A copy of the first `len` bytes to `start`, and a 0 behind them.
unfoldable pub copy_closed : ℕ → ℕ → List ℕ → (ℕ → ℕ) → ℕ → ℕ
copy_closed start len s mem i =
    if leb start i && ltb i (start + len)
    then get_or s (i - start) 0
    else if i == start + len
    then 0
    else mem i

-- `bwrite` for OUT_BUF, with the buffer at `buf` and its size.
unfoldable pub to_buffer : ℕ → ℕ → ℕ → List ℕ → (ℕ → ℕ) → ℕ → ℕ
to_buffer buf size cnum s mem = copy_closed (buf + cnum) (bytes_fit size cnum (length s)) s mem
