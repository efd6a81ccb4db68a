-- ===== src/Printf/Fields.antt =====
-- What the parts of a conversion of src/libc/stdio.c write, for a destination that a relation to the
-- text written so far describes.
use boss.Prelude.{
  ℕ, zero, suc, ◌-◌, ◌≡◌, refl, ◌∙◌, Bool, true, false, List, [], ◌∷◌, ◌++◌, length, length-append,
  append_assoc, append-nil, replicate, if◌then◌else◌, arith,
}
use boss.Printf.{restore, Printer, put_bytes, put_pad, put_field}

-- The text of a field of the width `width`, padded behind the text with spaces or before the sign.
abbrev pub field_text : Bool → ℕ → ℕ → List ℕ → List ℕ → List ℕ
field_text left padc width plus s =
    if left
    then plus ++ (s ++ replicate (width - length s) b' ')
    else replicate (width - length s) padc ++ (plus ++ s)

module _ {D : Type 0} (write : ℕ → List ℕ → D → D) (Holds : List ℕ → D → Type 0)
    (grow : (t s : List ℕ) (d : D) → Holds t d → Holds (t ++ s) (write (length t) s d)) where
  -- The text `t` has been written.
  pub record Prints (t : List ℕ) (p : Printer write) : Type 0 where
    pub holds : Holds t p.dest
    pub counted : p.cnum ≡ length t

  -- From `p` to `q` the arguments and the flags that outlive a conversion are the same.
  pub record Wrote (t : List ℕ) (p q : Printer write) : Type 0 where
    pub now : Prints t q
    pub same_flags : restore q.flags ≡ restore p.flags
    pub same_args : q.args ≡ p.args

  pub put_bytes-Prints :
      (t s : List ℕ) (p : Printer write) → Prints t p → Prints (t ++ s) (put_bytes write s p)
  unfolding put_bytes
  put_bytes-Prints t s p h = record {
    holds = rw h.counted (grow t s p.dest h.holds);
    counted = omega (arith, h.counted, length-append t s);
  }

  put_pad-Wrote :
      (n : ℕ) (t : List ℕ) (p : Printer write)
      → Prints t p
      → Wrote (t ++ replicate n p.flags.padc) p (put_pad write n p)
  unfolding put_pad put_bytes
  put_pad-Wrote zero t p h = record {
    now = rw (append-nil t) h;
    same_flags = refl;
    same_args = refl;
  }
  put_pad-Wrote (suc n) t p h =
      let one = put_bytes-Prints t (p.flags.padc ∷ []) p h in
      let longer = t ++ p.flags.padc ∷ [] in
      let rest = put_pad-Wrote n longer (put_bytes write (p.flags.padc ∷ []) p) one in
      let whole = append_assoc t (p.flags.padc ∷ []) (replicate n p.flags.padc) in
      record {
        now = rw (← whole) rest.now;
        same_flags = rest.same_flags;
        same_args = rest.same_args;
      }

  pub put_field-Wrote :
      (plus s t : List ℕ) (p : Printer write)
      → Prints t p
      → Wrote
          (t ++ field_text p.flags.left_align p.flags.padc p.flags.fwidth plus s)
          p
          (put_field write plus s p)
  unfolding put_field put_bytes restore
  put_field-Wrote plus s t p h =
      let space : ℕ = p.flags.fwidth - length s in
      let shown = put_bytes write s (put_bytes write plus p) in
      let spaces = record shown { flags = record p.flags { padc = b' ' } } in
      let padded = put_pad write space p in
      let text : Bool → List ℕ = λ left. field_text left p.flags.padc p.flags.fwidth plus s in
      elim p.flags.left_align
        as (λ left. Wrote (t ++ text left) p (
          if left
          then put_pad write space spaces
          else put_bytes write s (put_bytes write plus padded))) [
            | true ↦
                (let signed = put_bytes-Prints t plus p h in
                  let bare = put_bytes-Prints (t ++ plus) s (put_bytes write plus p) signed in
                  let all =
                    put_pad-Wrote space (t ++ plus ++ s) spaces
                      (record { holds = bare.holds; counted = bare.counted }) in
                  let whole =
                    append_assoc (t ++ plus) s (replicate space b' ')
                    ∙ append_assoc t plus (s ++ replicate space b' ') in
                  record {
                    now = rw (← whole) all.now;
                    same_flags = all.same_flags;
                    same_args = all.same_args;
                  })
            | false ↦
                (let pad = put_pad-Wrote space t p h in
                  let signed = put_bytes-Prints _ plus padded pad.now in
                  let bare = put_bytes-Prints _ s (put_bytes write plus padded) signed in
                  let whole =
                    append_assoc (t ++ replicate space p.flags.padc) plus s
                    ∙ append_assoc t (replicate space p.flags.padc) (plus ++ s) in
                  record {
                    now = rw (← whole) bare;
                    same_flags = pad.same_flags;
                    same_args = pad.same_args;
                  })
          ]
