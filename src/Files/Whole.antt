-- ===== src/Files/Whole.antt =====
-- Reading a whole file of src/libc/file.c.
use boss.Prelude.{
  List-cases, ℕ, zero, suc, ◌<◌, ◌≤◌, ◌≡◌, refl, ◌∙◌, sym, ap, inl, inr, Bool-cases, Option, none,
  some, List, [], ◌∷◌, ◌++◌, length, ◌==◌, arith,
}
use boss.Fs.{FsOperations, Vfs}
use boss.Files.{File, fgets}
use boss.Files.Lines.{IsStream, line_of, behind_line, line_of-append, fgets_line, fgets_end}

-- The lines that calls of `fgets` give, up to the null pointer or the number of calls.
unfoldable pub read_lines :
    {W : Type 0} → (ℕ → FsOperations W) → ℕ → ℕ → Option File → Vfs W → List (List ℕ)
read_lines fsop zero size fp v = []
read_lines fsop (suc calls) size fp v = elim (fgets fsop size fp v).0 [
  | none ↦ []
  | some line ↦ line ∷ read_lines fsop calls size (fgets fsop size fp v).1 (fgets fsop size fp v).2
]

abbrev pub concat : List (List ℕ) → List ℕ
concat [] = []
concat (line ∷ lines) = line ++ concat lines

abbrev lines_from :
    {W : Type 0}
    → (ℕ → FsOperations W)
    → ℕ
    → ℕ
    → Option (List ℕ) × Option File × Vfs W
    → List (List ℕ)
lines_from {W} fsop calls size r = elim r.0 as (λ o. List (List ℕ)) [
  | none ↦ []
  | some line ↦ line ∷ read_lines fsop calls size r.1 r.2
]

behind_shorter : (room : ℕ) (text : List ℕ) → length (behind_line room text) ≤ length text
behind_shorter zero text = omega arith
behind_shorter (suc room) [] = omega arith
behind_shorter (suc room) (c ∷ text) = elim (Bool-cases (c == 10)) [
  | inl e ↦ rw e (omega arith)
  | inr e ↦ rw e (omega (arith, behind_shorter room text))
]

behind_less :
    (room c : ℕ) (text : List ℕ) → length (behind_line (suc room) (c ∷ text)) ≤ length text
behind_less room c text = elim (Bool-cases (c == 10)) [
  | inl e ↦ rw e (omega arith)
  | inr e ↦ rw e (behind_shorter room text)
]

-- A text cut into lines with their line feeds, longer ones into pieces of `room` bytes: `n` of them at
-- most.
abbrev pub lines_of : ℕ → ℕ → List ℕ → List (List ℕ)
lines_of zero room text = []
lines_of (suc n) room [] = []
lines_of (suc n) room (c ∷ text) =
    line_of room (c ∷ text) ∷ lines_of n room (behind_line room (c ∷ text))

concat-lines_of :
    (n room : ℕ) (text : List ℕ) → length text < n → concat (lines_of n (suc room) text) ≡ text
concat-lines_of zero room text h = absurd (omega arith)
concat-lines_of (suc n) room [] h = refl
concat-lines_of (suc n) room (c ∷ text) h =
    ap (λ t. line_of (suc room) (c ∷ text) ++ t)
      (concat-lines_of n room (behind_line (suc room) (c ∷ text))
        (omega (arith, behind_less room c text)))
    ∙ line_of-append (suc room) (c ∷ text)

read_lines-lines_of :
    {W : Type 0} (fsop : ℕ → FsOperations W) (fp : File) (Ready : Vfs W → Type 0)
    (left : Vfs W → List ℕ)
    → IsStream fsop fp.fsn Ready left
    → (calls room : ℕ) (v : Vfs W) → Ready v
    → length (left v) < calls
    → read_lines fsop calls (suc (suc room)) (some fp) v ≡ lines_of calls (suc room) (left v)
unfolding read_lines
read_lines-lines_of fsop fp Ready left stream zero room v p h = absurd (omega arith)
read_lines-lines_of fsop fp Ready left stream (suc calls) room v p h = elim (List-cases (left v)) [
  | inl e ↦
      let (v', got) = fgets_end fsop fp Ready left stream room v p e in
      ap (λ r. lines_from fsop calls (suc (suc room)) r) got
      ∙ sym (ap (lines_of (suc calls) (suc room)) e)
  | inr (c, rest, e) ↦
      let (v', got, p', l) = fgets_line fsop fp Ready left stream room v c rest p e in
      let shorter : length (left v') < calls =
        omega (arith, ap length l, behind_less room c rest, ap length e) in
      let more = read_lines-lines_of fsop fp Ready left stream calls room v' p' shorter in
      ap (λ r. lines_from fsop calls (suc (suc room)) r) got
      ∙ ap (λ t. line_of (suc room) (c ∷ rest) ∷ t) (more ∙ ap (lines_of calls (suc room)) l)
      ∙ sym (ap (lines_of (suc calls) (suc room)) e)
]

-- Reading a file with `fgets` until it gives null gives the bytes that are left cut at each line feed,
-- which ends its line, and in longer lines after as many bytes as the buffer has room for besides the
-- terminator; together these are all bytes that are left. That is for any buffer with room for one
-- byte and the terminator, and a node whose bytes can be read one after the other to the end. One call
-- for each byte and one more are enough.
pub concat-read_lines :
    {W : Type 0} (fsop : ℕ → FsOperations W) (fp : File) (Ready : Vfs W → Type 0)
    (left : Vfs W → List ℕ)
    → IsStream fsop fp.fsn Ready left
    → (calls room : ℕ) (v : Vfs W) → Ready v
    → length (left v) < calls
    → (read_lines fsop calls (suc (suc room)) (some fp) v ≡ lines_of calls (suc room) (left v))
      × (concat (read_lines fsop calls (suc (suc room)) (some fp) v) ≡ left v)
concat-read_lines fsop fp Ready left stream calls room v p h =
    let lines = read_lines-lines_of fsop fp Ready left stream calls room v p h in
    (lines, ap concat lines ∙ concat-lines_of calls room (left v) h)
