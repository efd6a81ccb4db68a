-- ===== src/Keys.antt =====
-- src/keyb.c: the ring of key presses, the table of keys that are down, and the interrupt handler that
-- feeds both. The port reads are the handler's argument; `kb_getkey` gives `none` for -1.
pub mod Queue
mod Tests
use boss.Prelude.{
  ℕ, zero, suc, ◌+◌, ◌-◌, ◌%◌, ◌^◌, Bool, true, false, Option, none, some, List, [], ◌∷◌, ltb, ◌==◌,
  ◌&&◌, ◌||◌, not, if◌then◌else◌, ℤ, pos, negsuc, get_or, update,
}

-- The keys of the scan codes, without and with the prefix 0xe0.
abbrev pub scantbl_set1 : List ℕ
scantbl_set1 =
    0 ∷ 27 ∷ 49 ∷ 50 ∷ 51 ∷ 52 ∷ 53 ∷ 54 ∷ 55 ∷ 56 ∷ 57 ∷ 48 ∷ 45 ∷ 61 ∷ 8 ∷ 9 ∷ 113 ∷ 119 ∷ 101
    ∷ 114 ∷ 116 ∷ 121 ∷ 117 ∷ 105 ∷ 111 ∷ 112 ∷ 91 ∷ 93 ∷ 10 ∷ 156 ∷ 97 ∷ 115 ∷ 100 ∷ 102 ∷ 103
    ∷ 104 ∷ 106 ∷ 107 ∷ 108 ∷ 59 ∷ 39 ∷ 96 ∷ 158 ∷ 92 ∷ 122 ∷ 120 ∷ 99 ∷ 118 ∷ 98 ∷ 110 ∷ 109 ∷ 44
    ∷ 46 ∷ 47 ∷ 159 ∷ 142 ∷ 154 ∷ 32 ∷ 172 ∷ 160 ∷ 161 ∷ 162 ∷ 163 ∷ 164 ∷ 165 ∷ 166 ∷ 167 ∷ 168
    ∷ 169 ∷ 173 ∷ 174 ∷ 151 ∷ 152 ∷ 153 ∷ 141 ∷ 148 ∷ 149 ∷ 150 ∷ 140 ∷ 145 ∷ 146 ∷ 147 ∷ 144 ∷ 138
    ∷ 175 ∷ 0 ∷ 0 ∷ 170 ∷ 171 ∷ 0 ∷ 0 ∷ 0 ∷ 0 ∷ 0 ∷ 0 ∷ 0 ∷ 0 ∷ 0 ∷ 0 ∷ 0 ∷ 0 ∷ 0 ∷ 0 ∷ 0 ∷ 0 ∷ 0
    ∷ 0 ∷ 0 ∷ 0 ∷ 0 ∷ 0 ∷ 0 ∷ 0 ∷ 0 ∷ 0 ∷ 0 ∷ 0 ∷ 0 ∷ 0 ∷ 0 ∷ 0 ∷ 0 ∷ 0 ∷ 0 ∷ 0 ∷ 0 ∷ 0 ∷ 0 ∷ []

abbrev pub scantbl_set1_ext : List ℕ
scantbl_set1_ext =
    0 ∷ 0 ∷ 0 ∷ 0 ∷ 0 ∷ 0 ∷ 0 ∷ 0 ∷ 0 ∷ 0 ∷ 0 ∷ 0 ∷ 0 ∷ 0 ∷ 0 ∷ 0 ∷ 0 ∷ 0 ∷ 0 ∷ 0 ∷ 0 ∷ 0 ∷ 0 ∷ 0
    ∷ 0 ∷ 0 ∷ 0 ∷ 0 ∷ 13 ∷ 157 ∷ 0 ∷ 0 ∷ 0 ∷ 0 ∷ 0 ∷ 0 ∷ 0 ∷ 0 ∷ 0 ∷ 0 ∷ 0 ∷ 0 ∷ 0 ∷ 0 ∷ 0 ∷ 0 ∷ 0
    ∷ 0 ∷ 0 ∷ 0 ∷ 0 ∷ 0 ∷ 0 ∷ 141 ∷ 0 ∷ 175 ∷ 155 ∷ 0 ∷ 0 ∷ 0 ∷ 0 ∷ 0 ∷ 0 ∷ 0 ∷ 0 ∷ 0 ∷ 0 ∷ 0 ∷ 0
    ∷ 0 ∷ 0 ∷ 130 ∷ 136 ∷ 132 ∷ 0 ∷ 134 ∷ 0 ∷ 135 ∷ 0 ∷ 131 ∷ 137 ∷ 133 ∷ 128 ∷ 129 ∷ 0 ∷ 0 ∷ 0 ∷ 0
    ∷ 0 ∷ 0 ∷ 0 ∷ 0 ∷ 0 ∷ 0 ∷ 0 ∷ 0 ∷ 0 ∷ 0 ∷ 0 ∷ 0 ∷ 0 ∷ 0 ∷ 0 ∷ 0 ∷ 0 ∷ 0 ∷ 0 ∷ 0 ∷ 0 ∷ 0 ∷ 0 ∷ 0
    ∷ 0 ∷ 0 ∷ 0 ∷ 0 ∷ 0 ∷ 0 ∷ 0 ∷ 0 ∷ 0 ∷ 0 ∷ 0 ∷ 0 ∷ 0 ∷ 0 ∷ 0 ∷ 0 ∷ []

-- `ADVANCE`, for the 64 places of the ring.
abbrev pub advance : ℕ → ℕ
advance i = (i + 1) % 64

-- The globals of the file, and the handler's static `ext`.
pub record Keyboard : Type 0 where
  pub buffer : ℕ → ℕ
  pub buf_ridx : ℕ
  pub buf_widx : ℕ
  pub num_pressed : ℕ
  pub keystate : ℕ → ℕ
  pub ext : Bool

-- What `kb_init` sets.
pub kb_init : Keyboard → Keyboard
kb_init k = record k { buf_ridx = 0; buf_widx = 0; num_pressed = 0; keystate = λ i. 0 }

-- `kb_isdown`, with KB_ANY, KB_ALT and KB_CTRL as -1, -2 and -3. `none` is a read out of the table.
pub kb_isdown : ℤ → Keyboard → Option ℕ
kb_isdown (negsuc zero) k = some k.num_pressed
kb_isdown (negsuc (suc zero)) k = some (k.keystate 154 + k.keystate 155)
kb_isdown (negsuc (suc (suc zero))) k = some (k.keystate 156 + k.keystate 157)
kb_isdown (negsuc (suc (suc (suc n)))) k = none
kb_isdown (pos key) k = if ltb key 256 then some (k.keystate key) else none

pub kb_getkey : Keyboard → Option ℕ × Keyboard
kb_getkey k =
    if k.buf_ridx == k.buf_widx
    then (none, k)
    else (some (k.buffer k.buf_ridx), record k { buf_ridx = advance k.buf_ridx })

pub kb_putback : ℕ → Keyboard → Keyboard
kb_putback key k =
    let back = if k.buf_ridx == 0 then 63 else k.buf_ridx - 1 in
    let ridx = if back == k.buf_widx then advance back else back in
    record k { buf_ridx = ridx; buffer = update k.buffer ridx key }

-- The append of `kbintr`, which drops the oldest key press where the ring is full.
pub append_key : ℕ → Keyboard → Keyboard
append_key key k =
    let widx = advance k.buf_widx in
    record k {
      buffer = update k.buffer k.buf_widx key;
      buf_widx = widx;
      buf_ridx = if widx == k.buf_ridx then advance k.buf_ridx else k.buf_ridx;
    }

-- Whether a press of `key` reboots the machine.
pub is_reboot : ℕ → Keyboard → Bool
is_reboot key k =
    key == 129
    && (not (k.keystate 154 == 0) || not (k.keystate 155 == 0))
    && (not (k.keystate 156 == 0) || not (k.keystate 157 == 0))

-- `kbintr` on the byte read from the port; `none` is the reboot.
pub kbintr : ℕ → Keyboard → Option Keyboard
kbintr code k =
    if code == 224
    then some (record k { ext = true })
    else let press = ltb code 128 in
      let num_pressed : ℕ =
        if press
        then (k.num_pressed + 1) % 2 ^ 32
        else if ltb 0 k.num_pressed
        then k.num_pressed - 1
        else k.num_pressed in
      let key = get_or (if k.ext then scantbl_set1_ext else scantbl_set1) (code % 128) 0 in
      let k' = record k { num_pressed = num_pressed; ext = false } in
      let k'' = if press then append_key key k' else k' in
      if press && is_reboot key k'
      then none
      else some (record k'' { keystate = update k.keystate key (if press then 1 else 0) })
