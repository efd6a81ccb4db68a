-- ===== src/Printf/Conversions.antt =====
-- What the conversion of src/libc/stdio.c at a letter writes.
use boss.Prelude.{
  ℕ, ◌%◌, ◌≡◌, refl, ◌∙◌, ap, Bool, true, false, ◌&&◌, ◌||◌, not, some, some-injective, List, [],
  ◌∷◌, ◌++◌, length, append_assoc, append-nil, if◌then◌else◌,
}
use boss.Printf.{
  Arg, word, str, place, Conv, upper_hex, hex, octal, unsigned, signed, char, string, count, Flags,
  restore, is_negative, digits_of, Printer, put_bytes, put_number, put_prefix, as_hex, prepare,
  put_arg, next_arg, restored, convert,
}
use boss.Printf.Fields.{field_text, Prints, Wrote, put_bytes-Prints, put_field-Wrote}
use boss.Printf.Directives.{Directive}
use boss.Printf.Rendering.{Sticky, after, arg_text}
use boss.Printf.Letters.{flags_at, at_letter}

abbrev pub field_of : Flags → ℕ → List ℕ
field_of f n =
    field_text f.left_align f.padc f.fwidth
      (if not f.unsig && f.sign && not (is_negative n) then b'+' ∷ [] else []) (digits_of f n)

module _ {D : Type 0} (write : ℕ → List ℕ → D → D) (Holds : List ℕ → D → Type 0)
    (grow : (t s : List ℕ) (d : D) → Holds t d → Holds (t ++ s) (write (length t) s d)) where
  -- After the text `t`, with the arguments `args` left.
  pub record At (st : Sticky) (args : List Arg) (t : List ℕ) (p : Printer write) : Type 0 where
    pub printed : Prints write Holds grow t p
    pub flags_are : p.flags ≡ flags_at st
    pub args_left : p.args ≡ args

  -- A number is written with its prefix and its sign, in its field.
  put_number-Wrote :
      (n : ℕ) (t : List ℕ) (p : Printer write)
      → Prints write Holds grow t p
      → Wrote write Holds grow (t ++ field_of p.flags n) p (put_number write n p)
  unfolding put_number
  put_number-Wrote n t p h = put_field-Wrote write Holds grow _ (digits_of p.flags n) t p h

  -- A prefix is written where the flag asks for it, and changes neither flags nor arguments.
  put_prefix-Prints :
      (b : Bool) (s t : List ℕ) (f : Flags) (p : Printer write)
      → Prints write Holds grow t p
      → (let q = put_prefix write s (record p { flags = record f { alt = b || false } }) in
          Prints write Holds grow (t ++ (if b then s else [])) q
          × (q.flags ≡ record f { alt = b || false })
          × (q.args ≡ p.args))
  unfolding put_prefix put_bytes
  put_prefix-Prints true s t f p h = (
    put_bytes-Prints write Holds grow t s (record p { flags = record f { alt = true } })
        (record { holds = h.holds; counted = h.counted }),
    refl,
    refl,
  )
  put_prefix-Prints false s t f p h =
      (rw (append-nil t) (record { holds = h.holds; counted = h.counted }), refl, refl)

  number_done :
      (f : Flags) (st : Sticky) (n : ℕ) (t pre : List ℕ) (args : List Arg) (q : Printer write)
      → Prints write Holds grow (t ++ pre) q
      → q.flags ≡ f
      → q.args ≡ args
      → restore f ≡ flags_at st
      → At st args
          (t ++ (pre ++ field_of f n))
          (record (put_number write n q) { flags = restore (put_number write n q).flags })
  number_done f st n t pre args q h e a r =
      let done = put_number-Wrote n (t ++ pre) q h in
      let whole =
        append_assoc t pre (field_of q.flags n) ∙ ap (λ g. t ++ (pre ++ field_of g n)) e in
      record {
        printed = record {
          holds = rw (← whole) done.now.holds;
          counted = done.now.counted ∙ ap length whole;
        };
        flags_are = done.same_flags ∙ ap restore e ∙ r;
        args_left = done.same_args ∙ a;
      }

  -- The state at the letter of a directive.
  abbrev pub ready : Directive → Sticky → List Arg → D → ℕ → List (ℕ × ℕ) → Printer write
  ready d st args x c m = record {
    dest = x;
    cnum = c;
    flags = at_letter d st;
    args = args;
    stored = m;
  }

  abbrev pub Converts : Conv → Directive → Sticky → List Arg → List ℕ → Printer write → Type 0
  Converts k d st args t p =
      (q : Printer write) × (convert write k p ≡ some q) × At (after k d st) args t q

  -- What a number needs: it is written behind its prefix, in the base and with the letters asked for.
  as_hex-At :
      (caps : Bool) (d : Directive) (st : Sticky) (n : ℕ) (args : List Arg) (t : List ℕ) (x : D)
      (c : ℕ) (m : List (ℕ × ℕ))
      → Prints write Holds grow t (ready d st args x c m)
      → (let f = record (at_letter d st) { hex_caps = caps } in
          let q = as_hex write (record (ready d st args x c m) { flags = f }) in
          At
            (after hex d st)
            args
            (t
              ++ ((if d.alt then b'0' ∷ b'x' ∷ [] else [])
                  ++ field_of (record f { base = 16; unsig = true }) n))
            (record (put_number write n q) { flags = restore (put_number write n q).flags }))
  unfolding as_hex restore
  as_hex-At caps d st n args t x c m h =
      let f = record (at_letter d st) { hex_caps = caps; base = 16 } in
      let (pr, fl, ar) =
        put_prefix-Prints d.alt (b'0' ∷ b'x' ∷ []) t f (ready d st args x c m)
          (record { holds = h.holds; counted = h.counted }) in
      number_done (record f { unsig = true }) (after hex d st) n t
        (if d.alt then b'0' ∷ b'x' ∷ [] else []) args _
        (record { holds = pr.holds; counted = pr.counted })
        (ap {A = Flags} (λ g. record g { unsig = true }) fl) ar refl

  no_prefix :
      (b : Bool) (t : List ℕ) (p : Printer write)
      → Prints write Holds grow t p
      → Prints write Holds grow (t ++ (if b then [] else [])) p
  no_prefix true t p h = rw (append-nil t) h
  no_prefix false t p h = rw (append-nil t) h

  pub convert-At :
      (k : Conv) (d : Directive) (st : Sticky) (a : Arg) (args : List Arg) (s t : List ℕ) (x : D)
      (c : ℕ) (m : List (ℕ × ℕ))
      → arg_text k d (after k d st) a ≡ some s
      → Prints write Holds grow t (ready d st (a ∷ args) x c m)
      → Converts k d st args (t ++ s) (ready d st (a ∷ args) x c m)
  unfolding convert next_arg put_arg prepare restored restore digits_of put_bytes
  convert-At hex d st (word n) args s t x c m e h = rw (← some-injective e) (
    _,
    refl,
    as_hex-At false d st n args t x c m (record { holds = h.holds; counted = h.counted }),
  )
  convert-At upper_hex d st (word n) args s t x c m e h = rw (← some-injective e) (
    _,
    refl,
    as_hex-At true d st n args t x c m (record { holds = h.holds; counted = h.counted }),
  )
  convert-At octal d st (word n) args s t x c m e h =
      let f = record (at_letter d st) { base = 8 } in
      let (pr, fl, ar) =
        put_prefix-Prints d.alt (b'0' ∷ []) t f (ready d st args x c m)
          (record { holds = h.holds; counted = h.counted }) in
      rw (← some-injective e) (
        _,
        refl,
        number_done f (after octal d st) n t (if d.alt then b'0' ∷ [] else []) args _ pr fl ar refl,
      )
  convert-At unsigned d st (word n) args s t x c m e h = rw (← some-injective e) (
    _,
    refl,
    number_done (record (at_letter d st) { unsig = true }) (after unsigned d st) n t
        (if d.alt then [] else []) args
        (record (ready d st args x c m) { flags = record (at_letter d st) { unsig = true } })
        (no_prefix d.alt t _ (record { holds = h.holds; counted = h.counted })) refl refl refl,
  )
  convert-At signed d st (word n) args s t x c m e h = rw (← some-injective e) (
    _,
    refl,
    number_done (at_letter d st) (after signed d st) n t (if d.alt then [] else []) args
        (ready d st args x c m)
        (no_prefix d.alt t _ (record { holds = h.holds; counted = h.counted })) refl refl refl,
  )
  convert-At char d st (word n) args s t x c m e h =
      let p = ready d st args x c m in
      let one =
        put_bytes-Prints write Holds grow t (n % 256 ∷ []) p
          (record { holds = h.holds; counted = h.counted }) in
      rw (← some-injective e) (
        _,
        refl,
        record {
          printed = record { holds = one.holds; counted = one.counted };
          flags_are = refl;
          args_left = refl;
        },
      )
  convert-At string d st (str z) args s t x c m e h =
      let p = ready d st args x c m in
      let field =
        put_field-Wrote write Holds grow [] z t p
          (record { holds = h.holds; counted = h.counted }) in
      rw (← some-injective e) (
        _,
        refl,
        record {
          printed = record { holds = field.now.holds; counted = field.now.counted };
          flags_are = field.same_flags;
          args_left = field.same_args;
        },
      )
  convert-At count d st (place z) args s t x c m e h =
      rw (← some-injective e, append-nil t)
        (
          _,
          refl,
          record {
            printed = record { holds = h.holds; counted = h.counted };
            flags_are = refl;
            args_left = refl;
          },
        )
  convert-At _ d st _ args s t x c m e h = absurd cc
