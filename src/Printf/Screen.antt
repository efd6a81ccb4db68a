-- ===== src/Printf/Screen.antt =====
-- `printf` of src/libc/stdio.c on the text console of src/contty.c.
use boss.Prelude.{ℕ, ◌+◌, ◌≡◌, refl, ◌∙◌, ap, some, List, [], ◌∷◌, ◌++◌, length}
use boss.Console.{Console, con_putchar, put_text}
use boss.Console.Shown.{Terminal, NoTabs, type_text}
use boss.Console.Printing.{IsReady, put_text-IsReady}
use boss.Printf.{Arg, Printer, intern_printf, to_screen}
use boss.Printf.Directives.{Item, format_of}
use boss.Printf.Rendering.{Renders, fresh}
use boss.Printf.Output.{intern_printf-Renders}

put_text-append :
    (s t : List ℕ) (con : Console) → put_text t (put_text s con) ≡ put_text (s ++ t) con
unfolding put_text
put_text-append [] t con = refl
put_text-append (c ∷ s) t con = put_text-append s t (con_putchar c con)

-- `printf` with a format of plain characters and directives and the arguments that they take ends,
-- returns the number of characters, and leaves the screen as a terminal of 25 rows is after the text
-- that the directives stand for, if that has no tab and there was room for a line per character. The
-- widths are below 2^31, and the least `int` is not printed as a signed number.
pub printf-IsReady :
    (items : List Item) (args : List Arg) (text : List ℕ) (n attr : ℕ) (con : Console)
    (t : Terminal)
    → Renders fresh items args text
    → NoTabs text
    → IsReady (n + length text) attr con t
    → (q : Printer to_screen) × (intern_printf to_screen (format_of items) args con ≡ some q)
      × IsReady n attr q.dest (type_text attr text t)
      × (q.cnum ≡ length text)
unfolding put_text
printf-IsReady items args text n attr con t made plain h =
    let (q, run, shown, counted) =
      intern_printf-Renders to_screen (λ s d. d ≡ put_text s con)
        (λ s r d e. ap (put_text r) e ∙ put_text-append s r con) items args text con made refl in
    (q, run, rw shown (put_text-IsReady n attr text con t plain h), counted)
