-- ===== src/Printf/Overrun.antt =====
-- `snprintf` of src/libc/stdio.c on a text that is longer than the buffer.
use boss.Prelude.{
  ℕ, ◌+◌, ◌≡◌, refl, false, some, List, [], ◌∷◌, ◌++◌, length, length-append, append_assoc,
  append-nil, ◌==◌, arith,
}
use boss.Printf.{Printer, put_bytes, intern_printf, to_buffer}
use boss.Printf.Directives.{Runs, lit-Runs, end-Runs}
use boss.Printf.Buffer.{HoldsText, to_buffer-one}

-- A text without `%`.
pub data IsPlain : List ℕ → Type 0 where
  nil : IsPlain []
  cons : {c : ℕ} {s : List ℕ} → (c == b'%') ≡ false → IsPlain s → IsPlain (c ∷ s)

module _ (buf size : ℕ) (before : ℕ → ℕ) where
  plain-Runs :
      (t text : List ℕ) (p : Printer (to_buffer buf size))
      → IsPlain text
      → HoldsText buf before t p.dest
      → p.cnum ≡ length t
      → (q : Printer (to_buffer buf size)) × Runs (to_buffer buf size) false text p q
        × HoldsText buf before (t ++ text) q.dest
        × (q.cnum ≡ length (t ++ text))
  unfolding put_bytes
  plain-Runs t [] p nil h e =
      (p, end-Runs (to_buffer buf size) p, rw (append-nil t) h, rw (append-nil t) e)
  plain-Runs t (c ∷ text) p (cons ok more) h e =
      let one = to_buffer-one buf before size t c p.dest h in
      let next = put_bytes (to_buffer buf size) (c ∷ []) p in
      let counted : p.cnum + 1 ≡ length (t ++ c ∷ []) =
        omega (arith, e, length-append t (c ∷ [])) in
      let (q, run, holds, all) = plain-Runs (t ++ c ∷ []) text next more (rw e one) counted in
      let whole = append_assoc t (c ∷ []) text in
      (q, lit-Runs (to_buffer buf size) c text p q ok run, rw whole at holds, rw whole at all)

  -- For a format without directives the size given to `snprintf` has no effect: whatever the size,
  -- the whole text is written to the buffer and behind it, with a 0 behind the text.
  pub intern_printf_plain :
      (text : List ℕ)
      → IsPlain text
      → (q : Printer (to_buffer buf size)) × (intern_printf (to_buffer buf size) text [] before
          ≡ some q)
        × HoldsText buf before text q.dest
        × (q.cnum ≡ length text)
  unfolding intern_printf
  intern_printf_plain text ok =
      let (q, run, holds, all) =
        plain-Runs [] text _ ok
          (record {
            bytes = λ i b. absurd (omega arith);
            closed = λ b. absurd (omega arith);
            below = λ i b. refl;
            above = λ i b. refl;
          })
          refl in
      (q, run (length text + 1) (omega arith), holds, all)
