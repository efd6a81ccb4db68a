-- ===== src/Console/Tests.antt =====
-- The console of src/contty.c on concrete texts.
use boss.Prelude.{
  ℕ, ◌+◌, ◌*◌, ◌/◌, ◌%◌, ◌==◌, ◌≡◌, refl, true, List, [], ◌∷◌, length, if◌then◌else◌, arith,
}
use boss.Console.{
  Console, vmem_char, fill_cells, crtc_write, crtc_cursor, crtc_setstart, con_putchar, con_curattr,
  con_show_cursor, con_clear, con_fgcolor, con_bgcolor, con_init, put_on_screen, char_of, wrap,
  linefeed, scroll, con_putchar_scr, draw_text, puts, newline,
}
use boss.Console.Bounds.{IsOn}
use boss.Console.Shown.{Terminal, type_char, type_text}
use boss.Console.Printing.{IsReady, puts-IsReady}

-- A blank screen that starts at the line `line`, with the cursor in its last row.
abbrev bottom : ℕ → Console
bottom line = record {
  vram = λ i. 0;
  cursor_x = 79;
  cursor_y = 24;
  txattr = 7;
  start_line = line;
  cy0 = 13;
  cy1 = 14;
  curvis = 1;
  scr_on = true;
  crtc = λ r.
      if r == 15
      then ((24 + line) * 80 + 79) % 256
      else if r == 14
      then ((24 + line) * 80 + 79) / 256
      else if r == 13
      then line * 80 % 256
      else line * 80 / 256;
  sent = [];
}

bottom-IsOn : IsOn (bottom 175)
bottom-IsOn = record {
  lined = record { row = omega arith; last = omega arith; start_low = refl; start_high = refl };
  column = omega arith;
  place_low = refl;
  place_high = refl;
}

abbrev blank : Terminal
blank = record { cells = λ row col. 0; x = 79; y = 24 }

abbrev hi : List ℕ
hi = 72 ∷ 105 ∷ []

bottom-IsReady : IsReady (1 + 1 + length hi) 7 (bottom 0) blank
bottom-IsReady = record {
  on_screen = record {
    lined = record { row = omega arith; last = omega arith; start_low = refl; start_high = refl };
    column = omega arith;
    place_low = refl;
    place_high = refl;
  };
  is_on = refl;
  colours = refl;
  room = omega arith;
  shown = record { cell_at = λ row col hr hc. refl; at_x = refl; at_y = refl };
}

puts-IsReady_example :
    IsReady 1 7 (puts hi (bottom 0)) (type_char 7 10 newline (type_text 7 hi blank))
puts-IsReady_example = puts-IsReady 1 7 hi (bottom 0) blank (refl, (refl, tt)) bottom-IsReady

-- The first character wraps to the next line, which scrolls the screen down by one.
wrapped : (con_putchar 72 (bottom 0)).cursor_x + 100 * (con_putchar 72 (bottom 0)).start_line ≡ 100
unfolding con_putchar crtc_cursor crtc_write put_on_screen char_of wrap linefeed scroll
    crtc_setstart con_putchar_scr
wrapped = refl

-- A tab in column 20 goes back to column 12.
tab_back : (con_putchar 9 (record (bottom 0) { cursor_x = 20 })).cursor_x ≡ 12
unfolding con_putchar crtc_cursor crtc_write put_on_screen char_of wrap
tab_back = refl

-- `con_curattr` sets the bit that hides the cursor where the cursor is visible.
hidden : (con_curattr true (con_show_cursor 1 (bottom 0))).crtc 10 ≡ 45
unfolding con_curattr con_show_cursor crtc_write
hidden = refl

coloured : (con_bgcolor 1 (con_fgcolor 14 (bottom 0))).txattr ≡ 30
unfolding con_bgcolor con_fgcolor
coloured = refl

-- `con_printf` stops at the last column.
cut : (draw_text 79 3 hi (bottom 0)).0 ≡ 1
unfolding draw_text con_putchar_scr vmem_char
cut = refl

cleared : (con_clear (bottom 9)).vram 1999 ≡ 1824
unfolding con_clear crtc_setstart crtc_cursor crtc_write fill_cells vmem_char
cleared = refl

started : (con_init (bottom 0)).crtc 10 ≡ 0
unfolding con_init con_show_cursor crtc_setstart crtc_cursor crtc_write
started = refl
