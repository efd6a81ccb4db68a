-- ===== src/Number.antt =====
-- src/libc/stdlib.c: numbers read from and written to text. `long` and `int` are words of 32 bits,
-- whose wrap-around is written out. The `rbuf` of `itoa` and `utoa`, 16 bytes, is a list: a longer
-- text, which only bases below 5 can give, is written past it, and the theorem on `itoa` excludes it.
-- The program itself uses the bases 8, 10 and 16.
pub mod Leading
pub mod RoundTrip
mod Tests
use boss.Prelude.{
  ℕ, zero, suc, ◌+◌, ◌-◌, ◌*◌, ◌/◌, ◌%◌, ◌^◌, Bool, true, false, Option, none, some, List, [], ◌∷◌,
  ltb, leb, ◌==◌, ◌&&◌, ◌||◌, if◌then◌else◌, ℤ, pos, negsuc,
}
use boss.Text.{isspace, isdigit, tolower}

-- The value of a digit; `none` where the loop breaks for another reason than the base.
unfoldable pub digit_value : ℕ → Option ℕ
digit_value b =
    let c = tolower b in
    if isdigit c
    then some (b - b'0')
    else if leb b'a' c && leb c b'f'
    then some (10 + c - b'a')
    else none

-- What the loop of `strtol` has when it stops.
pub record Scan : Type 0 where
  pub acc : ℕ
  pub valid : Bool
  pub rest : List ℕ

abbrev pub scan : ℕ → Bool → List ℕ → Scan
scan a v r = record { acc = a; valid = v; rest = r }

unfoldable pub scan_digits : ℕ → ℕ → Bool → List ℕ → Scan
scan_digits base acc valid [] = scan acc valid []
scan_digits base acc valid (b ∷ s) = elim (digit_value b) [
  | none ↦ scan acc valid (b ∷ s)
  | some val ↦ elim (leb base val) [
    | true ↦ scan acc valid (b ∷ s)
    | false ↦ scan_digits base ((acc * base + val) % 2 ^ 32) true s
  ]
]

unfoldable pub skip_space : List ℕ → List ℕ
skip_space [] = []
skip_space (c ∷ s) = if isspace c then skip_space s else c ∷ s

-- The base that `base == 0` asks to find.
pub find_base : List ℕ → ℕ
find_base [] = 10
find_base (c ∷ []) = if c == b'0' then 8 else 10
find_base (c ∷ d ∷ s) = if c == b'0' then (if d == b'x' || d == b'X' then 16 else 8) else 10

-- The sign, and the text behind it.
unfoldable pub take_sign : List ℕ → Bool × List ℕ
take_sign [] = (false, [])
take_sign (c ∷ s) =
    if c == b'+' then (false, s) else if c == b'-' then (true, s) else (false, c ∷ s)

-- A 32-bit word as a signed number.
unfoldable pub word_int : ℕ → ℤ
word_int n = if ltb n (2 ^ 31) then pos n else negsuc (2 ^ 32 - 1 - n)

abbrev pub signed : Bool → ℕ → ℤ
signed negative n = word_int (if negative then (2 ^ 32 - n) % 2 ^ 32 else n)

-- `strtol`: the number, and `*endp` as the text from there on.
unfoldable pub strtol : List ℕ → ℕ → ℤ × List ℕ
strtol str base =
    let text = skip_space str in
    let base' = if base == 0 then find_base text else base in
    let (negative, digits) = take_sign text in
    let r = scan_digits base' 0 false digits in
    (signed negative r.acc, if r.valid then r.rest else str)

unfoldable pub atoi : List ℕ → ℤ
atoi str = (strtol str 10).0

-- A digit of `itoa` and `utoa`.
unfoldable pub digit_char : ℕ → ℕ
digit_char d = if ltb d 10 then d + b'0' else d - 10 + b'a'

-- The loop `while(val)`: `rbuf` is a stack, from which the digits are popped into the result. The
-- value bounds the rounds.
unfoldable pub push_digits : ℕ → ℕ → ℕ → List ℕ → List ℕ
push_digits base zero val rbuf = rbuf
push_digits base (suc fuel) val rbuf = elim (val == 0) [
  | true ↦ rbuf
  | false ↦ push_digits base fuel (val / base) (digit_char (val % base) ∷ rbuf)
]

unfoldable pub utoa : ℕ → ℕ → List ℕ
utoa val base = if val == 0 then b'0' ∷ [] else push_digits base val val []

-- The loop for the least `int`, which `val = -val` leaves as it is: the remainders are not positive,
-- and each is taken off `'0'`. `val` is the number without its sign.
unfoldable pub push_least : ℕ → ℕ → ℕ → List ℕ → List ℕ
push_least base zero val rbuf = rbuf
push_least base (suc fuel) val rbuf = elim (val == 0) [
  | true ↦ rbuf
  | false ↦ push_least base fuel (val / base) ((b'0' - val % base) ∷ rbuf)
]

-- `itoa` of an `int`.
unfoldable pub itoa : ℤ → ℕ → List ℕ
itoa (pos n) base = utoa n base
itoa (negsuc n) base =
    b'-' ∷ (if n + 1 == 2 ^ 31 then push_least base (2 ^ 31) (2 ^ 31) [] else utoa (n + 1) base)
