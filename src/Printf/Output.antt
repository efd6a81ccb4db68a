-- ===== src/Printf/Output.antt =====
-- Whole formats of src/libc/stdio.c.
use boss.Prelude.{
  ℕ, ◌+◌, ◌≡◌, refl, ◌∙◌, ap, false, some, List, [], ◌∷◌, ◌++◌, length, append_assoc, append-nil,
  arith,
}
use boss.Printf.{Arg, Conv, ignored, restore, Printer, put_bytes, restored, convert, intern_printf}
use boss.Printf.Fields.{Prints, put_bytes-Prints}
use boss.Printf.Directives.{
  Directive, Item, lit, directive, format_of, Runs, with_directive, directive-Runs, letter-Runs,
  lit-Runs, end-Runs,
}
use boss.Printf.Rendering.{Sticky, fresh, after, Renders, done, plain, skipped, filled}
use boss.Printf.Letters.{flags_at, at_letter, with_directive_lem}
use boss.Printf.Conversions.{At, convert-At}

module _ {D : Type 0} (write : ℕ → List ℕ → D → D) (Holds : List ℕ → D → Type 0)
    (grow : (t s : List ℕ) (d : D) → Holds t d → Holds (t ++ s) (write (length t) s d)) where
  EndsIn : List ℕ → List Item → Printer write → Type 0
  EndsIn text items p =
      (q : Printer write) × Runs write false (format_of items) p q × Prints write Holds grow text q

  -- A directive that is skipped only leaves its flags.
  skipped_lem :
      (k : Conv) (d : Directive) (st : Sticky) (p : Printer write)
      → k ≡ ignored
      → convert write k (record p { flags = at_letter d st })
        ≡ some (record p { flags = flags_at (after k d st) })
  unfolding convert restored restore
  skipped_lem k d st p e = rw e refl

  format-Runs :
      (st : Sticky) (items : List Item) (args : List Arg) (t text : List ℕ) (p : Printer write)
      → Renders st items args text
      → At write Holds grow st args t p
      → EndsIn (t ++ text) items p
  unfolding EndsIn put_bytes
  format-Runs st [] args t text p done at = (p, end-Runs write p, rw (append-nil t) at.printed)
  format-Runs st (lit c ∷ items) args t text p (plain {text = rest} ok more) at =
      let one = put_bytes-Prints write Holds grow t (c ∷ []) p at.printed in
      let (q, run, all) =
        format-Runs st items args (t ++ c ∷ []) rest (put_bytes write (c ∷ []) p) more
          (record { printed = one; flags_are = at.flags_are; args_left = at.args_left }) in
      (q, lit-Runs write c (format_of items) p q ok run, rw (append_assoc t (c ∷ []) rest) at all)
  format-Runs st (directive d ∷ items) args t text p (skipped narrow none_of more) at =
      let ready_at = with_directive_lem write d st p at.flags_are in
      let skip = skipped_lem d.conv d st p none_of in
      let next = record p { flags = flags_at (after d.conv d st) } in
      let (q, run, all) = format-Runs (after d.conv d st) items args t text next more (record {
        printed = record { holds = at.printed.holds; counted = at.printed.counted };
        flags_are = refl;
        args_left = at.args_left;
      }) in
      (
        q,
        directive-Runs write d (format_of items) p q narrow (
            letter-Runs write d.conv (format_of items) (with_directive write d p) next q
              (ap (convert write d.conv) ready_at ∙ skip) run),
        all,
      )
  format-Runs st (directive d ∷ items) args t text p
        (filled {a = a} {args = left} {s = s} {text = rest} narrow ok made more whole) at =
      let ready_at =
        with_directive_lem write d st p at.flags_are
        ∙ ap {A = List Arg} (λ l. record p { flags = at_letter d st; args = l }) at.args_left in
      let (r, conv_done, now) =
        convert-At write Holds grow d.conv d st a left s t p.dest p.cnum p.stored made
          (record { holds = at.printed.holds; counted = at.printed.counted }) in
      let (q, run, all) = format-Runs (after d.conv d st) items left (t ++ s) rest r more now in
      (
        q,
        directive-Runs write d (format_of items) p q narrow (
            letter-Runs write d.conv (format_of items) (with_directive write d p) r q
              (ap (convert write d.conv) ready_at ∙ conv_done) run),
        rw (whole, ← append_assoc t s rest) all,
      )

  -- For every format made of plain characters and directives, and arguments that fit them,
  -- `intern_printf` ends, and what it has written is the text that the directives stand for one by
  -- one, with the count of its bytes. The flags `+` and `-` of a directive, and a conversion to an
  -- unsigned number, stay in force for the directives behind it. The destination may be any that
  -- keeps a relation to the text when more bytes are written to it.
  pub intern_printf-Renders :
      (items : List Item) (args : List Arg) (text : List ℕ) (d : D)
      → Renders fresh items args text
      → Holds [] d
      → (q : Printer write) × (intern_printf write (format_of items) args d ≡ some q)
        × Holds text q.dest
        × (q.cnum ≡ length text)
  unfolding intern_printf EndsIn
  intern_printf-Renders items args text d made h =
      let (q, run, all) = format-Runs fresh items args [] text _ made (record {
        printed = record { holds = h; counted = refl };
        flags_are = refl;
        args_left = refl;
      }) in
      (q, run (length (format_of items) + 1) (omega arith), all.holds, all.counted)
