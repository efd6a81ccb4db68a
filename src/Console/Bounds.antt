-- ===== src/Console/Bounds.antt =====
-- The bounds of src/contty.c: the cursor stays on the screen, the screen in the 200 lines of text
-- memory, and the registers of the display agree with both.
use boss.Prelude.{
  ℕ, ◌+◌, ◌-◌, ◌*◌, ◌/◌, ◌%◌, ◌≤◌, ◌<◌, ◌≡◌, refl, ◌∙◌, true, false, inl, inr, Bool-cases, List, [],
  ◌∷◌, ◌++◌, ltb, leb, if◌then◌else◌, arith,
}
use boss.Console.{
  Console, fill_cells, copy_cells, crtc_write, crtc_cursor, crtc_setstart, scrolled, scroll,
  linefeed, con_putchar_scr, wrap, char_of, put_on_screen, con_putchar, Char, newline, return, tab,
  backspace, other, put_text, puts,
}

-- The lines of the screen lie in the text memory, and the display starts at the first of them.
pub record IsLined (s : Console) : Type 0 where
  pub row : s.cursor_y < 25
  pub last : s.start_line ≤ 175
  pub start_low : s.crtc 13 ≡ s.start_line * 80 % 256
  pub start_high : s.crtc 12 ≡ s.start_line * 80 / 256

-- The state between two calls: the cursor is in a column of a row of the screen, and the cursor of
-- the display is where it is.
pub record IsOn (s : Console) : Type 0 where
  pub lined : IsLined s
  pub column : s.cursor_x < 80
  pub place_low : s.crtc 15 ≡ ((s.cursor_y + s.start_line) * 80 + s.cursor_x) % 256
  pub place_high : s.crtc 14 ≡ ((s.cursor_y + s.start_line) * 80 + s.cursor_x) / 256

-- No cell behind the 200 lines changes.
abbrev pub Inside : Console → Console → Type 0
Inside s t = (i : ℕ) → 16000 ≤ i → t.vram i ≡ s.vram i

scroll-IsLined :
    (s : Console)
    → s.start_line ≤ 175
    → (next : ℕ) → next ≡ s.cursor_y - 1
    → s.cursor_y ≤ 25
    → IsLined (record (scroll s) { cursor_y = next }) × Inside s (scroll s)
unfolding scroll scrolled crtc_setstart crtc_write fill_cells copy_cells
scroll-IsLined s h next e k = elim (Bool-cases (ltb 175 (s.start_line + 1))) [
  | inl t ↦ (
    rw t (record { row = omega arith; last = omega arith; start_low = refl; start_high = refl }),
    rw t (λ i far. ground arith),
  )
  | inr t ↦ (
    rw t (record {
      row = omega arith;
      last = ground arith;
      start_low = refl;
      start_high = ground arith;
    }),
    rw t (λ i far. ground arith),
  )
]

-- Drawing and moving along a row leave the lines where they are.
IsLined-moved :
    (s : Console)
    → IsLined s
    → (x : ℕ) (vram : ℕ → ℕ) → IsLined (record s { cursor_x = x; vram = vram })
IsLined-moved s ok x vram = record {
  row = ok.row;
  last = ok.last;
  start_low = ok.start_low;
  start_high = ok.start_high;
}

linefeed-IsLined : (s : Console) → IsLined s → IsLined (linefeed s) × Inside s (linefeed s)
unfolding linefeed
linefeed-IsLined s ok = elim (Bool-cases (leb 25 (s.cursor_y + 1))) [
  | inl t ↦
      (let low : IsLined s = ok in
        let moved =
          scroll-IsLined (record s { cursor_y = s.cursor_y + 1 }) low.last s.cursor_y (omega arith)
            (omega (arith, low.row)) in
        rw t moved)
  | inr t ↦ (
    rw t (record {
      row = ground arith;
      last = ok.last;
      start_low = ok.start_low;
      start_high = ok.start_high;
    }),
    rw t (λ i far. refl),
  )
]

-- What a character does to the screen keeps its lines in the text memory and the cursor in a column.
abbrev Kept : Console → Console → Type 0
Kept s t = IsLined t × (t.cursor_x < 80) × Inside s t

wrap-Kept : (s : Console) (x : ℕ) → IsLined s → Kept s (wrap x s)
unfolding wrap
wrap-Kept s x ok = elim (Bool-cases (leb 80 x)) [
  | inl t ↦
      (let at = record s { cursor_x = x } in
        let fed = linefeed-IsLined at (IsLined-moved s ok x s.vram) in
        rw t (IsLined-moved (linefeed at) fed.0 0 (linefeed at).vram, omega arith, fed.1))
  | inr t ↦ rw t (IsLined-moved s ok x s.vram, ground arith, λ i far. refl)
]

put_on_screen-Kept : (s : Console) (c : ℕ) (k : Char) → IsOn s → Kept s (put_on_screen c k s)
unfolding put_on_screen con_putchar_scr
put_on_screen-Kept s c newline ok =
    let fed = linefeed-IsLined s ok.lined in
    (IsLined-moved (linefeed s) fed.0 0 (linefeed s).vram, omega arith, fed.1)
put_on_screen-Kept s c return ok = (IsLined-moved s ok.lined 0 s.vram, omega arith, λ i far. refl)
put_on_screen-Kept s c tab ok = wrap-Kept s (s.cursor_x % 8 + 8) ok.lined
put_on_screen-Kept s c backspace ok = (
  IsLined-moved s ok.lined (s.cursor_x - 1) _,
  omega (arith, ok.column),
  λ i far. ground (arith, ok.lined.row, ok.lined.last, ok.column),
)
put_on_screen-Kept s c other ok =
    let drawn = con_putchar_scr s.cursor_x s.cursor_y c s in
    let w = wrap-Kept drawn (s.cursor_x + 1) (IsLined-moved s ok.lined s.cursor_x drawn.vram) in
    (w.0, w.1, λ i far. w.2 i far ∙ ground (arith, ok.lined.row, ok.lined.last, ok.column))

abbrev At : Console → Console → Type 0
At s t = IsOn t × Inside s t

IsOn-sent : (s t : Console) (sent : List ℕ) → At s t → At s (record t { sent = sent })
IsOn-sent s t sent at = (
  record {
    lined = record {
      row = at.0.lined.row;
      last = at.0.lined.last;
      start_low = at.0.lined.start_low;
      start_high = at.0.lined.start_high;
    };
    column = at.0.column;
    place_low = at.0.place_low;
    place_high = at.0.place_high;
  },
  at.1,
)

cursor_set : (s t : Console) → Kept s t → At s (crtc_cursor t.cursor_x t.cursor_y t)
unfolding crtc_cursor crtc_write
cursor_set s t kept = (
  record {
    lined = record {
      row = kept.0.row;
      last = kept.0.last;
      start_low = kept.0.start_low;
      start_high = kept.0.start_high;
    };
    column = kept.1;
    place_low = refl;
    place_high = omega (arith, kept.1, kept.0.row, kept.0.last);
  },
  kept.2,
)

-- Printing a character, with the screen on or off, keeps the cursor on the screen and the screen in
-- the 200 lines of text memory, changes no cell behind them, and sets the display to show both.
pub con_putchar-IsOn :
    (s : Console) (c : ℕ) → IsOn s → IsOn (con_putchar c s) × Inside s (con_putchar c s)
unfolding con_putchar crtc_cursor crtc_write
con_putchar-IsOn s c ok =
    let put = put_on_screen c (char_of c) s in
    let kept = put_on_screen-Kept s c (char_of c) ok in
    let drawn = cursor_set s put kept in
    let x = put.cursor_x in
    let y = put.cursor_y in
    elim s.scr_on
      as (λ b. At s (record (if b then crtc_cursor x y put else s) { sent = s.sent ++ c ∷ [] })) [
        | true ↦ IsOn-sent s (crtc_cursor x y put) (s.sent ++ c ∷ []) drawn
        | false ↦ IsOn-sent s s (s.sent ++ c ∷ []) (ok, λ i far. refl)
      ]

-- So does printing a whole text with `puts`.
pub puts-IsOn : (s : Console) (text : List ℕ) → IsOn s → IsOn (puts text s) × Inside s (puts text s)
unfolding puts put_text
puts-IsOn s [] ok = con_putchar-IsOn s 10 ok
puts-IsOn s (c ∷ cs) ok =
    let first = con_putchar-IsOn s c ok in
    let rest = puts-IsOn (con_putchar c s) cs first.0 in
    (rest.0, λ i far. rest.1 i far ∙ first.1 i far)
