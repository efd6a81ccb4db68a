-- ===== src/Console.antt =====
-- src/contty.c: the text console in the video memory, and the registers of the display that it sets.
-- The build has CON_TEXTMODE and CON_SERIAL; what is handed to `ser_putchar` is kept in order in
-- `sent`. Cells are the 16-bit words from TEXT_ADDR on.
pub mod Bounds
pub mod Printing
pub mod Shown
mod Tests
use Prim.Native.Nat.{bit_and, bit_or}
use boss.Prelude.{
  ℕ, zero, suc, ◌+◌, ◌-◌, ◌*◌, ◌/◌, ◌%◌, ◌^◌, Bool, true, false, Option, none, some, List, [], ◌∷◌,
  ◌++◌, ltb, leb, ◌==◌, ◌&&◌, not, if◌then◌else◌, update,
}

pub record Console : Type 0 where
  pub vram : ℕ → ℕ
  pub cursor_x : ℕ
  pub cursor_y : ℕ
  pub txattr : ℕ
  pub start_line : ℕ
  pub cy0 : ℕ
  pub cy1 : ℕ
  pub curvis : ℕ
  pub scr_on : Bool
  pub crtc : ℕ → ℕ
  pub sent : List ℕ

-- VMEM_CHAR.
unfoldable pub vmem_char : ℕ → ℕ → ℕ
vmem_char c attr = c % 256 + attr * 256

-- `memset16` on `count` cells from `from` on.
unfoldable pub fill_cells : (ℕ → ℕ) → ℕ → ℕ → ℕ → ℕ → ℕ
fill_cells vram from v count i = if leb from i && ltb i (from + count) then v else vram i

-- `memcpy` to the first `count` cells from those at `from`, which do not overlap them.
unfoldable pub copy_cells : (ℕ → ℕ) → ℕ → ℕ → ℕ → ℕ
copy_cells vram from count i = if ltb i count then vram (from + i) else vram i

unfoldable pub crtc_write : ℕ → ℕ → (ℕ → ℕ) → ℕ → ℕ
crtc_write reg val crtc = update crtc reg (val % 256)

unfoldable pub crtc_cursor : ℕ → ℕ → Console → Console
crtc_cursor x y s =
    let addr : ℕ = (y + s.start_line) * 80 + x in
    record s { crtc = crtc_write 14 (addr / 256) (crtc_write 15 addr s.crtc) }

unfoldable pub crtc_setstart : ℕ → Console → Console
crtc_setstart y s =
    let addr : ℕ = y * 80 in
    record s { crtc = crtc_write 12 (addr / 256) (crtc_write 13 addr s.crtc) }

unfoldable pub con_show_cursor : ℕ → Console → Console
con_show_cursor visible s =
    let val = bit_and s.cy0 31 in
    record s {
      crtc = crtc_write 10 (if visible == 0 then bit_or val 32 else val) s.crtc;
      curvis = visible;
    }

-- `con_init` without the opening of the serial port.
unfoldable pub con_init : Console → Console
con_init s =
    let cy0 = s.crtc 10 in
    let shown = con_show_cursor 1 (record s {
      cy0 = bit_and cy0 31;
      cy1 = bit_and (s.crtc 11) 31;
      curvis = if bit_and cy0 32 == 0 then 0 else 1;
    }) in
    let started = crtc_setstart 0 shown in
    record (crtc_cursor s.cursor_x s.cursor_y started) { scr_on = true }

unfoldable pub con_scr_enable : Console → Console
con_scr_enable s = record s { scr_on = true }

unfoldable pub con_scr_disable : Console → Console
con_scr_disable s = record s { scr_on = false }

unfoldable pub con_cursor : ℕ → ℕ → Console → Console
con_cursor x y s = crtc_cursor x y (record s { cursor_x = x; cursor_y = y })

-- Whether the shape is CON_CURSOR_LINE is the first argument.
unfoldable pub con_curattr : Bool → Console → Console
con_curattr line s =
    let cy0 = if line then 13 else 0 in
    let start = if s.curvis == 0 then cy0 else bit_or cy0 32 in
    record s { cy0 = cy0; cy1 = 14; crtc = crtc_write 11 cy0 (crtc_write 10 start s.crtc) }

unfoldable pub con_fgcolor : ℕ → Console → Console
con_fgcolor c s = record s { txattr = bit_or (bit_and s.txattr 240) c % 256 }

unfoldable pub con_bgcolor : ℕ → Console → Console
con_bgcolor c s = record s { txattr = bit_or (bit_and s.txattr 15) (c * 16) % 256 }

unfoldable pub con_setattr : ℕ → Console → Console
con_setattr attr s = record s { txattr = attr % 256 }

unfoldable pub con_clear : Console → Console
con_clear s =
    let blank = fill_cells s.vram 0 (vmem_char 32 s.txattr) 2000 in
    let started = crtc_setstart 0 (record s { vram = blank; start_line = 0 }) in
    crtc_cursor 0 0 (record started { cursor_x = 0; cursor_y = 0 })

-- The memory after `scroll`: where the last line was shown, 1920 cells are copied from the bytes at
-- `start_line * 80`, which are the cells at half of it.
unfoldable pub scrolled : ℕ → (ℕ → ℕ) → ℕ → ℕ
scrolled next vram = if ltb 175 next then copy_cells vram (next * 80 / 2) 1920 else vram

unfoldable pub scroll : Console → Console
scroll s =
    let next : ℕ = s.start_line + 1 in
    let start = if ltb 175 next then 0 else next in
    crtc_setstart start (record s {
      vram = fill_cells (scrolled next s.vram) ((start + 24) * 80) (vmem_char 32 s.txattr) 80;
      start_line = start;
    })

unfoldable pub linefeed : Console → Console
linefeed s =
    if leb 25 (s.cursor_y + 1)
    then (let t = scroll (record s { cursor_y = s.cursor_y + 1 }) in
        record t { cursor_y = s.cursor_y })
    else record s { cursor_y = s.cursor_y + 1 }

unfoldable pub con_putchar_scr : ℕ → ℕ → ℕ → Console → Console
con_putchar_scr x y c s = record s {
  vram = update s.vram ((y + s.start_line) * 80 + x) (vmem_char c s.txattr);
}

-- The column `x` after a character, or the start of the next line where it is none of this one.
unfoldable pub wrap : ℕ → Console → Console
wrap x s =
    if leb 80 x
    then record (linefeed (record s { cursor_x = x })) { cursor_x = 0 }
    else record s { cursor_x = x }

-- The characters of the `switch`.
pub data Char : Type 0 where
  newline : Char
  return : Char
  tab : Char
  backspace : Char
  other : Char

unfoldable pub char_of : ℕ → Char
char_of c =
    if c == 10
    then newline
    else if c == 13
    then return
    else if c == 9
    then tab
    else if c == 8
    then backspace
    else other

-- The `switch` of `con_putchar` up to the `crtc_cursor` at the end of each case.
unfoldable pub put_on_screen : ℕ → Char → Console → Console
put_on_screen c newline s = record (linefeed s) { cursor_x = 0 }
put_on_screen c return s = record s { cursor_x = 0 }
put_on_screen c tab s = wrap (s.cursor_x % 8 + 8) s
put_on_screen c backspace s =
    con_putchar_scr (s.cursor_x - 1) s.cursor_y 32 (record s { cursor_x = s.cursor_x - 1 })
put_on_screen c other s = wrap (s.cursor_x + 1) (con_putchar_scr s.cursor_x s.cursor_y c s)

unfoldable pub con_putchar : ℕ → Console → Console
con_putchar c s =
    let t = put_on_screen c (char_of c) s in
    let drawn = if s.scr_on then crtc_cursor t.cursor_x t.cursor_y t else s in
    record drawn { sent = s.sent ++ c ∷ [] }

-- The loop of `con_printf` on the text that `vsnprintf` made, which gives how many characters it drew.
unfoldable pub draw_text : ℕ → ℕ → List ℕ → Console → ℕ × Console
draw_text x y [] s = (0, s)
draw_text x y (c ∷ cs) s =
    let rest = draw_text (x + 1) y cs (con_putchar_scr x y c s) in
    elim (ltb x 80) [ true ↦ (rest.0 + 1, rest.1) | false ↦ (0, s) ]

-- `puts` of src/libc/stdio.c.
unfoldable pub put_text : List ℕ → Console → Console
put_text [] s = s
put_text (c ∷ cs) s = put_text cs (con_putchar c s)

unfoldable pub puts : List ℕ → Console → Console
puts text s = con_putchar 10 (put_text text s)
