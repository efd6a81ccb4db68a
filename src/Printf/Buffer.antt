-- ===== src/Printf/Buffer.antt =====
-- `sprintf` and `snprintf` of src/libc/stdio.c: what is in the buffer and around it.
use boss.Prelude.{
  ℕ, zero, suc, ◌+◌, ◌-◌, ◌^◌, ◌<◌, ◌≡◌, refl, sym, ◌∙◌, ap, true, false, inl, inr, ◌⊎◌, Bool-cases,
  some, List, [], ◌∷◌, ◌++◌, length, length-append, get_or, ltb, leb, ◌==◌, arith,
}
use boss.Printf.{Arg, Printer, intern_printf, to_buffer, bytes_fit, copy_closed}
use boss.Printf.Directives.{Item, format_of}
use boss.Printf.Rendering.{Renders, fresh}
use boss.Printf.Output.{intern_printf-Renders}

get_or-append_left : (s t : List ℕ) (i : ℕ) → i < length s → get_or (s ++ t) i 0 ≡ get_or s i 0
get_or-append_left [] t i h = absurd (omega arith)
get_or-append_left (c ∷ s) t zero h = refl
get_or-append_left (c ∷ s) t (suc i) h = get_or-append_left s t i (omega arith)

get_or-append_right : (s t : List ℕ) (i : ℕ) → get_or (s ++ t) (length s + i) 0 ≡ get_or t i 0
get_or-append_right [] t i = let e : 0 + i ≡ i = omega arith in rw e refl
get_or-append_right (c ∷ s) t i =
    let e : suc (length s) + i ≡ suc (length s + i) = omega arith in
    rw e (get_or-append_right s t i)

module _ (buf : ℕ) (before : ℕ → ℕ) where
  -- The text stands at `buf` with a 0 behind it, unless it is empty, and nothing else has changed.
  pub record HoldsText (t : List ℕ) (mem : ℕ → ℕ) : Type 0 where
    pub bytes : (i : ℕ) → i < length t → mem (buf + i) ≡ get_or t i 0
    pub closed : 0 < length t → mem (buf + length t) ≡ 0
    pub below : (i : ℕ) → i < buf → mem i ≡ before i
    pub above : (i : ℕ) → buf + length t < i → mem i ≡ before i

  -- A write of all of its bytes.
  abbrev written : ℕ → List ℕ → (ℕ → ℕ) → ℕ → ℕ
  written cnum s mem = copy_closed (buf + cnum) (length s) s mem

  written-HoldsText :
      (t s : List ℕ) (mem : ℕ → ℕ) → HoldsText t mem → HoldsText (t ++ s) (written (length t) s mem)
  unfolding copy_closed
  written-HoldsText t s mem h =
      let len = length-append t s in
      record {
        bytes = λ i b. elim (Bool-cases (ltb i (length t))) [
          | inl old ↦
              (let early : leb (buf + length t) (buf + i) ≡ false = ground arith in
                let no_end : (buf + i == buf + length t + length s) ≡ false = ground arith in
                let here : i < length t = ground arith in
                rw (early, no_end) (h.bytes i here ∙ sym (get_or-append_left t s i here)))
          | inr new ↦
              (let from : leb (buf + length t) (buf + i) ≡ true = ground arith in
                let upto : ltb (buf + i) (buf + length t + length s) ≡ true = ground (arith, len) in
                let j : ℕ = i - length t in
                let place : buf + i - (buf + length t) ≡ j = omega arith in
                let split : length t + j ≡ i = ground arith in
                rw (from, upto, place)
                  (sym (get_or-append_right t s j) ∙ ap (λ k. get_or (t ++ s) k 0) split))
        ];
        closed = λ some_text.
            let past : ltb (buf + length (t ++ s)) (buf + length t + length s) ≡ false =
              ground (arith, len) in
            let end : (buf + length (t ++ s) == buf + length t + length s) ≡ true =
              ground (arith, len) in
            let from : leb (buf + length t) (buf + length (t ++ s)) ≡ true = ground (arith, len) in
            rw (from, past, end) refl;
        below = λ i b. ground (arith, h.below i b);
        above = λ i b. ground (arith, len, h.above i (omega (arith, len)));
      }

  -- The size is 0, for `sprintf`, or the text and its closing 0 are not longer than it.
  abbrev pub Fits : ℕ → ℕ → Type 0
  Fits size n = (size ≡ 0) ⊎ (n < size)

  bytes_fit-all :
      (size cnum len : ℕ) → size < 2 ^ 32 → Fits size (cnum + len) → bytes_fit size cnum len ≡ len
  unfolding bytes_fit
  bytes_fit-all size cnum len h (inl e) = ground (arith, e)
  bytes_fit-all size cnum len h (inr f) = ground (arith, f)

  bytes_fit-one : (size cnum : ℕ) → bytes_fit size cnum 1 ≡ 1
  unfolding bytes_fit
  bytes_fit-one size cnum = ground arith

  -- A write of one byte is never cut, whatever the size.
  pub to_buffer-one :
      (size : ℕ) (t : List ℕ) (c : ℕ) (mem : ℕ → ℕ)
      → HoldsText t mem
      → HoldsText (t ++ c ∷ []) (to_buffer buf size (length t) (c ∷ []) mem)
  unfolding to_buffer
  to_buffer-one size t c mem h =
      rw (bytes_fit-one size (length t)) (written-HoldsText t (c ∷ []) mem h)

  Fits-shorter : (size n m : ℕ) → Fits size (n + m) → Fits size n
  Fits-shorter size n m (inl e) = inl e
  Fits-shorter size n m (inr f) = inr (omega (arith, f))

  -- `sprintf`, and `snprintf` where the text is shorter than the size of the buffer, end and leave
  -- the text that the directives stand for at the start of the buffer, with a 0 behind it unless it
  -- is empty, change nothing else, and return its length. The widths are below 2^31, and the least
  -- `int` is not printed as a signed number.
  pub intern_printf-HoldsText :
      (size : ℕ) (items : List Item) (args : List Arg) (text : List ℕ)
      → size < 2 ^ 32
      → Renders fresh items args text
      → Fits size (length text)
      → (q : Printer (to_buffer buf size)) × (intern_printf
            (to_buffer buf size)
            (format_of items)
            args
            before
          ≡ some q)
        × HoldsText text q.dest
        × (q.cnum ≡ length text)
  unfolding to_buffer
  intern_printf-HoldsText size items args text h made fits =
      let (q, run, holds, counted) =
        intern_printf-Renders (to_buffer buf size) (λ t m. Fits size (length t) → HoldsText t m)
          (λ t s m held f.
            let longer : Fits size (length t + length s) = rw (length-append t s) at f in
            rw (bytes_fit-all size (length t) (length s) h longer)
              (written-HoldsText t s m (held (Fits-shorter size (length t) (length s) longer))))
          items args text before made
          (λ f. record {
            bytes = λ i b. absurd (omega arith);
            closed = λ b. absurd (omega arith);
            below = λ i b. refl;
            above = λ i b. refl;
          }) in
      (q, run, holds fits, counted)
