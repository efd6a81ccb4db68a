-- ===== src/Console/Shown.antt =====
-- What the screen of src/contty.c shows, against a terminal of 25 rows that shift up at the bottom.
use boss.Prelude.{
  ℕ, ◌+◌, ◌-◌, ◌*◌, ◌/◌, ◌%◌, ◌≤◌, ◌<◌, ◌≡◌, refl, ap, true, false, inl, inr, Bool-cases, List, [],
  ◌∷◌, ◌++◌, ltb, leb, ◌==◌, ◌&&◌, if◌then◌else◌, arith,
}
use boss.Console.{
  Console, vmem_char, fill_cells, crtc_write, crtc_cursor, crtc_setstart, scrolled, scroll,
  linefeed, con_putchar_scr, wrap, char_of, put_on_screen, con_putchar, Char, newline, return, tab,
  backspace, other,
}
use boss.Console.Bounds.{IsOn}

-- A terminal: the cell in each row and column, and the cursor.
pub record Terminal : Type 0 where
  pub cells : ℕ → ℕ → ℕ
  pub x : ℕ
  pub y : ℕ

-- The next row, where the rows shift up below the last one.
abbrev pub feed : ℕ → Terminal → Terminal
feed blank t =
    if leb 24 t.y
    then record t { cells = λ row col. if ltb row 24 then t.cells (row + 1) col else blank }
    else record t { y = t.y + 1 }

abbrev pub advance_to : ℕ → ℕ → Terminal → Terminal
advance_to blank x t =
    if leb 80 x then record (feed blank (record t { x = x })) { x = 0 } else record t { x = x }

abbrev pub draw : ℕ → ℕ → ℕ → Terminal → Terminal
draw x y cell t = record t {
  cells = λ row col. if row == y && col == x then cell else t.cells row col;
}

-- A character in the colours `attr`. A tab goes to the next column that is a multiple of 8.
abbrev pub type_char : ℕ → ℕ → Char → Terminal → Terminal
type_char attr c newline t = record (feed (vmem_char 32 attr) t) { x = 0 }
type_char attr c return t = record t { x = 0 }
type_char attr c tab t = advance_to (vmem_char 32 attr) ((t.x / 8 + 1) * 8) t
type_char attr c backspace t = draw (t.x - 1) t.y (vmem_char 32 attr) (record t { x = t.x - 1 })
type_char attr c other t =
    advance_to (vmem_char 32 attr) (t.x + 1) (draw t.x t.y (vmem_char c attr) t)

abbrev pub type_text : ℕ → List ℕ → Terminal → Terminal
type_text attr [] t = t
type_text attr (c ∷ cs) t = type_text attr cs (type_char attr c (char_of c) t)

abbrev pub NoTabs : List ℕ → Type 0
NoTabs [] = Unit
NoTabs (c ∷ cs) = ((c == 9) ≡ false) × NoTabs cs

abbrev IsPlain : Char → Type 0
IsPlain tab = ⊥
IsPlain k = Unit

char_of-IsPlain : (c : ℕ) → (c == 9) ≡ false → IsPlain (char_of c)
unfolding char_of
char_of-IsPlain c h = elim (Bool-cases (c == 10)) [
  | inl p ↦ rw p tt
  | inr p ↦ rw p (elim (Bool-cases (c == 13)) [
    | inl q ↦ rw q tt
    | inr q ↦ rw (q, h) (elim (Bool-cases (c == 8)) [ inl r ↦ rw r tt | inr r ↦ rw r tt ])
  ])
]

-- The screen of the console is the terminal.
pub record Shows (s : Console) (t : Terminal) : Type 0 where
  pub cell_at :
      (row col : ℕ)
      → row < 25
      → col < 80
      → s.vram ((s.start_line + row) * 80 + col) ≡ t.cells row col
  pub at_x : s.cursor_x ≡ t.x
  pub at_y : s.cursor_y ≡ t.y

place-injective : (a b c d : ℕ) → b < 80 → d < 80 → a * 80 + b ≡ c * 80 + d → (a ≡ c) × (b ≡ d)
place-injective a b c d h k e = (omega arith, omega arith)

linefeed-Shows :
    (s : Console) (t : Terminal)
    → s.start_line < 175
    → s.cursor_y < 25
    → Shows s t
    → Shows (linefeed s) (feed (vmem_char 32 s.txattr) t)
unfolding linefeed scroll scrolled crtc_setstart crtc_write fill_cells
linefeed-Shows s t room row h = elim (Bool-cases (leb 24 t.y)) [
  | inl e ↦
      (let low : leb 25 (s.cursor_y + 1) ≡ true = ground (arith, h.at_y) in
        let fits : ltb 175 (s.start_line + 1) ≡ false = ground arith in
        rw (low, fits, e)
          (record {
            cell_at = λ r c hr hc. elim (Bool-cases (ltb r 24)) [
              | inl above ↦
                  (let i : ℕ = (s.start_line + 1 + r) * 80 + c in
                    let before : leb ((s.start_line + 1 + 24) * 80) i ≡ false = ground arith in
                    let same : i ≡ (s.start_line + (r + 1)) * 80 + c = omega arith in
                    rw (above, before, same) (h.cell_at (r + 1) c (ground arith) hc))
              | inr below ↦
                  (let i : ℕ = (s.start_line + 1 + r) * 80 + c in
                    let from : leb ((s.start_line + 1 + 24) * 80) i ≡ true = ground arith in
                    let upto : ltb i ((s.start_line + 1 + 24) * 80 + 80) ≡ true = ground arith in
                    rw (below, from, upto) refl)
            ];
            at_x = h.at_x;
            at_y = h.at_y;
          }))
  | inr e ↦
      (let high : leb 25 (s.cursor_y + 1) ≡ false = ground (arith, h.at_y) in
        rw (high, e) (record { cell_at = h.cell_at; at_x = h.at_x; at_y = omega (arith, h.at_y) }))
]

wrap-Shows :
    (s : Console) (t : Terminal) (x : ℕ)
    → s.start_line < 175
    → s.cursor_y < 25
    → Shows s t
    → Shows (wrap x s) (advance_to (vmem_char 32 s.txattr) x t)
unfolding wrap
wrap-Shows s t x room row h = elim (Bool-cases (leb 80 x)) [
  | inl e ↦
      (let at : Shows (record s { cursor_x = x }) (record t { x = x }) = record {
        cell_at = h.cell_at;
        at_x = refl;
        at_y = h.at_y;
      } in
        let fed = linefeed-Shows (record s { cursor_x = x }) (record t { x = x }) room row at in
        rw e (record { cell_at = fed.cell_at; at_x = refl; at_y = fed.at_y }))
  | inr e ↦ rw e (record { cell_at = h.cell_at; at_x = refl; at_y = h.at_y })
]

draw-Shows :
    (s : Console) (t : Terminal) (x y c : ℕ)
    → x < 80
    → y < 25
    → Shows s t
    → Shows (con_putchar_scr x y c s) (draw x y (vmem_char c s.txattr) t)
unfolding con_putchar_scr
draw-Shows s t x y c hx hy h = record {
  cell_at = λ row col hr hc. ground (arith, h.cell_at row col hr hc);
  at_x = h.at_x;
  at_y = h.at_y;
}

put_on_screen-Shows :
    (s : Console) (t : Terminal) (c : ℕ) (k : Char)
    → s.start_line < 175
    → IsPlain k
    → IsOn s
    → Shows s t
    → Shows (put_on_screen c k s) (type_char s.txattr c k t)
unfolding put_on_screen con_putchar_scr
put_on_screen-Shows s t c newline room pl ok h =
    let fed = linefeed-Shows s t room ok.lined.row h in
    record { cell_at = fed.cell_at; at_x = refl; at_y = fed.at_y }
put_on_screen-Shows s t c return room pl ok h = record {
  cell_at = h.cell_at;
  at_x = refl;
  at_y = h.at_y;
}
put_on_screen-Shows s t c tab room pl ok h = elim pl [ ]
put_on_screen-Shows s t c backspace room pl ok h =
    let left : ℕ = s.cursor_x - 1 in
    let back = record s { cursor_x = left } in
    let at : Shows back (record { cells = t.cells; x = left; y = s.cursor_y }) = record {
      cell_at = h.cell_at;
      at_x = refl;
      at_y = refl;
    } in
    rw (← h.at_x, ← h.at_y)
      (draw-Shows back _ left s.cursor_y 32 (omega (arith, ok.column)) ok.lined.row at)
put_on_screen-Shows s t c other room pl ok h =
    let drawn = con_putchar_scr s.cursor_x s.cursor_y c s in
    let at = draw-Shows s t s.cursor_x s.cursor_y c ok.column ok.lined.row h in
    rw (← h.at_x, ← h.at_y)
      (wrap-Shows drawn _ (s.cursor_x + 1) room ok.lined.row
        (record { cell_at = at.cell_at; at_x = refl; at_y = refl }))

-- A character changes neither the colours nor whether the screen is on, and the screen moves down in
-- the text memory by at most a line.
pub record Steps (s t : Console) : Type 0 where
  pub same_attr : t.txattr ≡ s.txattr
  pub same_on : t.scr_on ≡ s.scr_on
  pub one_line : t.start_line ≤ s.start_line + 1

linefeed-Steps : (s : Console) → Steps s (linefeed s)
unfolding linefeed scroll crtc_setstart
linefeed-Steps s = elim (Bool-cases (leb 25 (s.cursor_y + 1))) [
  | inl e ↦ rw e (record { same_attr = refl; same_on = refl; one_line = ground arith })
  | inr e ↦ rw e (record { same_attr = refl; same_on = refl; one_line = omega arith })
]

wrap-Steps : (s : Console) (x : ℕ) → Steps s (wrap x s)
unfolding wrap
wrap-Steps s x =
    let fed = linefeed-Steps (record s { cursor_x = x }) in
    elim (Bool-cases (leb 80 x)) [
      | inl e ↦
          rw e
            (record { same_attr = fed.same_attr; same_on = fed.same_on; one_line = fed.one_line })
      | inr e ↦ rw e (record { same_attr = refl; same_on = refl; one_line = omega arith })
    ]

put_on_screen-Steps : (s : Console) (c : ℕ) (k : Char) → Steps s (put_on_screen c k s)
unfolding put_on_screen con_putchar_scr
put_on_screen-Steps s c newline =
    let fed = linefeed-Steps s in
    record { same_attr = fed.same_attr; same_on = fed.same_on; one_line = fed.one_line }
put_on_screen-Steps s c return = record { same_attr = refl; same_on = refl; one_line = omega arith }
put_on_screen-Steps s c tab = wrap-Steps s (s.cursor_x % 8 + 8)
put_on_screen-Steps s c backspace = record {
  same_attr = refl;
  same_on = refl;
  one_line = omega arith;
}
put_on_screen-Steps s c other =
    let moved = wrap-Steps (con_putchar_scr s.cursor_x s.cursor_y c s) (s.cursor_x + 1) in
    record { same_attr = moved.same_attr; same_on = moved.same_on; one_line = moved.one_line }

pub con_putchar-Shows :
    (s : Console) (t : Terminal) (c : ℕ)
    → s.start_line < 175
    → s.scr_on ≡ true
    → (c == 9) ≡ false
    → IsOn s
    → Shows s t
    → Shows (con_putchar c s) (type_char s.txattr c (char_of c) t) × Steps s (con_putchar c s)
unfolding con_putchar crtc_cursor
con_putchar-Shows s t c room on no_tab ok h =
    let put = put_on_screen-Shows s t c (char_of c) room (char_of-IsPlain c no_tab) ok h in
    let steps = put_on_screen-Steps s c (char_of c) in
    let after : con_putchar c s
        ≡ record (crtc_cursor (put_on_screen c (char_of c) s).cursor_x
            (put_on_screen c (char_of c) s).cursor_y (put_on_screen c (char_of c) s)) {
              sent = s.sent ++ c ∷ [];
            } =
      ap
        (λ b.
          record (if b
            then crtc_cursor (put_on_screen c (char_of c) s).cursor_x
                (put_on_screen c (char_of c) s).cursor_y (put_on_screen c (char_of c) s)
            else s) { sent = s.sent ++ c ∷ [] })
        on in
    rw after (
      record { cell_at = put.cell_at; at_x = put.at_x; at_y = put.at_y },
      record { same_attr = steps.same_attr; same_on = steps.same_on; one_line = steps.one_line },
    )
