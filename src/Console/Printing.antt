-- ===== src/Console/Printing.antt =====
-- Whole texts on the screen of src/contty.c.
use boss.Prelude.{ℕ, suc, ◌+◌, ◌≤◌, ◌≡◌, refl, ◌∙◌, true, false, ◌==◌, List, [], ◌∷◌, length, arith}
use boss.Console.{Console, char_of, newline, con_putchar, put_text, puts}
use boss.Console.Bounds.{IsOn, con_putchar-IsOn}
use boss.Console.Shown.{Terminal, NoTabs, type_char, type_text, Shows, con_putchar-Shows}

-- The console is on and shows the terminal, and has room for `n` lines more.
pub record IsReady (n : ℕ) (attr : ℕ) (s : Console) (t : Terminal) : Type 0 where
  pub on_screen : IsOn s
  pub is_on : s.scr_on ≡ true
  pub colours : s.txattr ≡ attr
  pub room : s.start_line + n ≤ 175
  pub shown : Shows s t

con_putchar-IsReady :
    (n attr c : ℕ) (s : Console) (t : Terminal)
    → (c == 9) ≡ false
    → IsReady (n + 1) attr s t
    → IsReady n attr (con_putchar c s) (type_char attr c (char_of c) t)
con_putchar-IsReady n attr c s t plain h =
    let put = con_putchar-Shows s t c (omega (arith, h.room)) h.is_on plain h.on_screen h.shown in
    record {
      on_screen = (con_putchar-IsOn s c h.on_screen).0;
      is_on = put.1.same_on ∙ h.is_on;
      colours = put.1.same_attr ∙ h.colours;
      room = omega (arith, put.1.one_line, h.room);
      shown = rw (← h.colours) put.0;
    }

pub put_text-IsReady :
    (n attr : ℕ) (text : List ℕ) (s : Console) (t : Terminal)
    → NoTabs text
    → IsReady (n + length text) attr s t
    → IsReady n attr (put_text text s) (type_text attr text t)
unfolding put_text
put_text-IsReady n attr [] s t plain h = let all : n + 0 ≡ n = omega arith in rw all at h
put_text-IsReady n attr (c ∷ cs) s t plain h =
    let more : n + suc (length cs) ≡ n + length cs + 1 = omega arith in
    put_text-IsReady n attr cs (con_putchar c s) _ plain.1
      (con_putchar-IsReady (n + length cs) attr c s t plain.0 (rw more at h))

-- While the screen is on and the text memory has a line left for each character and one for the end,
-- `puts` shows a text without tabs as a terminal of 25 rows does, which wraps at the last column, shifts its
-- rows up at the bottom, and goes to a new line at the end.
pub puts-IsReady :
    (n attr : ℕ) (text : List ℕ) (s : Console) (t : Terminal)
    → NoTabs text
    → IsReady (n + 1 + length text) attr s t
    → IsReady n attr (puts text s) (type_char attr 10 newline (type_text attr text t))
unfolding puts char_of
puts-IsReady n attr text s t plain h =
    con_putchar-IsReady n attr 10 _ _ refl (put_text-IsReady (n + 1) attr text s t plain h)
