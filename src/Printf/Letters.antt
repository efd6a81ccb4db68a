-- ===== src/Printf/Letters.antt =====
-- The flags of src/libc/stdio.c when the letter of a directive is read.
use boss.Prelude.{ℕ, zero, suc, ◌≡◌, refl, ◌∙◌, ap, Bool, true, false, ◌||◌, List, if◌then◌else◌}
use boss.Printf.{Flags, start_flags, set_flag, Printer}
use boss.Printf.Directives.{Directive, with_flag, with_width, with_directive}
use boss.Printf.Rendering.{Sticky, pad_of}

abbrev pub flags_at : Sticky → Flags
flags_at st = record start_flags { sign = st.plus; left_align = st.minus; unsig = st.unsig }

abbrev pub at_letter : Directive → Sticky → Flags
at_letter d st = record {
  base = 10;
  alt = d.alt || false;
  fwidth = d.width;
  padc = pad_of d;
  sign = d.plus || st.plus;
  left_align = d.minus || st.minus;
  hex_caps = false;
  unsig = st.unsig;
}

module _ {D : Type 0} (write : ℕ → List ℕ → D → D) where
  flag_alt :
      (b : Bool) (p : Printer write)
      → with_flag write b b'#' p ≡ record p { flags = record p.flags { alt = b || p.flags.alt } }
  unfolding with_flag set_flag
  flag_alt true p = refl
  flag_alt false p = refl

  flag_plus :
      (b : Bool) (p : Printer write)
      → with_flag write b b'+' p ≡ record p { flags = record p.flags { sign = b || p.flags.sign } }
  unfolding with_flag set_flag
  flag_plus true p = refl
  flag_plus false p = refl

  flag_minus :
      (b : Bool) (p : Printer write)
      → with_flag write b b'-' p
        ≡ record p { flags = record p.flags { left_align = b || p.flags.left_align } }
  unfolding with_flag set_flag
  flag_minus true p = refl
  flag_minus false p = refl

  flag_zeros :
      (b : Bool) (p : Printer write)
      → with_flag write b b'0' p
        ≡ record p { flags = record p.flags { padc = if b then b'0' else p.flags.padc } }
  unfolding with_flag set_flag
  flag_zeros true p = refl
  flag_zeros false p = refl

  flag_width :
      (w : ℕ) (p : Printer write)
      → p.flags.fwidth ≡ 0
      → with_width write w p ≡ record p { flags = record p.flags { fwidth = w } }
  unfolding with_width
  flag_width zero p e = rw⁻¹ e refl
  flag_width (suc w) p e = refl

  pub with_directive_lem :
      (d : Directive) (st : Sticky) (p : Printer write)
      → p.flags ≡ flags_at st
      → with_directive write d p ≡ record p { flags = at_letter d st }
  with_directive_lem d st p e =
      let p0 = record p { flags = flags_at st } in
      let p1 = record p0 { flags = record p0.flags { alt = d.alt || false } } in
      let p2 = record p1 { flags = record p1.flags { sign = d.plus || st.plus } } in
      let p3 = record p2 { flags = record p2.flags { left_align = d.minus || st.minus } } in
      let p4 = record p3 { flags = record p3.flags { padc = pad_of d } } in
      let zeros = with_flag write d.zeros b'0' in
      let minus = with_flag write d.minus b'-' in
      let plus = with_flag write d.plus b'+' in
      let alt = with_flag write d.alt b'#' in
      let width = with_width write d.width in
      ap (λ f. width (zeros (minus (plus (alt (record p { flags = f })))))) e
      ∙ ap (λ q. width (zeros (minus (plus q)))) (flag_alt d.alt p0)
      ∙ ap (λ q. width (zeros (minus q))) (flag_plus d.plus p1)
      ∙ ap (λ q. width (zeros q)) (flag_minus d.minus p2)
      ∙ ap (λ q. width q) (flag_zeros d.zeros p3)
      ∙ flag_width d.width p4 refl
