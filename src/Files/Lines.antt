-- ===== src/Files/Lines.antt =====
-- Reading a file of src/libc/file.c line by line.
use boss.Prelude.{
  List-cases, ℕ, zero, suc, ◌≡◌, refl, ◌∙◌, sym, ap, inl, inr, Bool-cases, Bool, true, false,
  Option, none, some, List, [], ◌∷◌, ◌++◌, get_or, ltb, ◌==◌, if◌then◌else◌, ℤ, pos, negsuc,
}
use boss.Fs.{OpenNode, FsOperations, Vfs, fs_read}
use boss.Files.{File, whole_items, fread, fgetc, get_line, fgets}

-- What is left to read of a node of a file system, in the states where it can be read: each read of a
-- byte takes the next one, and at the end gives 0 bytes.
pub record IsStream {W : Type 0} (fsop : ℕ → FsOperations W) (node : OpenNode)
    (Ready : Vfs W → Type 0) (left : Vfs W → List ℕ) : Type 0 where
  pub read_byte :
      (v : Vfs W) (c : ℕ) (rest : List ℕ)
      → Ready v
      → left v ≡ c ∷ rest
      → (v' : Vfs W) × (fs_read fsop node (pos 1) v ≡ ((pos 1, c ∷ []), v'))
        × Ready v'
        × (left v' ≡ rest)
  pub read_end :
      (v : Vfs W)
      → Ready v
      → left v ≡ []
      → (v' : Vfs W) × (fs_read fsop node (pos 1) v ≡ ((pos 0, []), v')) × Ready v' × (left v' ≡ [])

-- The bytes up to a line feed and with it, `room` of them at most.
abbrev pub line_of : ℕ → List ℕ → List ℕ
line_of zero text = []
line_of (suc room) [] = []
line_of (suc room) (c ∷ text) = if c == 10 then c ∷ [] else c ∷ line_of room text

-- What is behind them.
abbrev pub behind_line : ℕ → List ℕ → List ℕ
behind_line zero text = text
behind_line (suc room) [] = []
behind_line (suc room) (c ∷ text) = if c == 10 then text else behind_line room text

pub line_of-append : (room : ℕ) (text : List ℕ) → line_of room text ++ behind_line room text ≡ text
line_of-append zero text = refl
line_of-append (suc room) [] = refl
line_of-append (suc room) (c ∷ text) = elim (Bool-cases (c == 10)) [
  | inl e ↦ rw e refl
  | inr e ↦ rw e (ap (λ r. c ∷ r) (line_of-append room text))
]

module _ {W : Type 0} (fsop : ℕ → FsOperations W) (fp : File) (Ready : Vfs W → Type 0)
    (left : Vfs W → List ℕ) (stream : IsStream fsop fp.fsn Ready left) where
  -- What `fgetc` makes of the result of the read.
  abbrev from_read : (ℤ × List ℕ) × Vfs W → ℤ × Option File × Vfs W
  from_read r =
      let q = elim (whole_items fsop r.0.0 1) as (λ o. ℕ × List ℕ × Option File × Vfs W) [
        | none ↦ (0, r.0.1, some (record fp { at_eof = true }), r.1)
        | some n ↦ (n, r.0.1, some fp, r.1)
      ] in
      (if ltb q.0 1 then negsuc 0 else pos (get_or q.1 0 0), q.2, q.3)

  fgetc_byte :
      (v : Vfs W) (c : ℕ) (rest : List ℕ)
      → Ready v
      → left v ≡ c ∷ rest
      → (v' : Vfs W) × (fgetc fsop (some fp) v ≡ (pos c, some fp, v')) × Ready v' × (left v' ≡ rest)
  unfolding fgetc fread
  fgetc_byte v c rest p e =
      let (v', found, p', l) = stream.read_byte v c rest p e in (v', ap from_read found, p', l)

  fgetc_end :
      (v : Vfs W)
      → Ready v
      → left v ≡ []
      → (v' : Vfs W) × (fgetc fsop (some fp) v ≡ (negsuc 0, some fp, v'))
        × Ready v'
        × (left v' ≡ [])
  unfolding fgetc fread
  fgetc_end v p e =
      let (v', found, p', l) = stream.read_end v p e in (v', ap from_read found, p', l)

  -- A round of the loop of `fgets` behind its call of `fgetc`.
  abbrev after_byte : ℕ → ℕ → Vfs W → Bool → List ℕ × Option File × Vfs W
  after_byte room c v b = elim b as (λ b. List ℕ × Option File × Vfs W) [
    | true ↦ (c ∷ [], some fp, v)
    | false ↦ (let rest = get_line fsop (suc room) (some fp) v in (c ∷ rest.0, rest.1, rest.2))
  ]

  -- A round of the loop of `fgets`.
  abbrev line_from : ℕ → ℤ × Option File × Vfs W → List ℕ × Option File × Vfs W
  line_from room r = elim r.0 as (λ z. List ℕ × Option File × Vfs W) [
    | negsuc n ↦ ([], r.1, r.2)
    | pos c ↦ elim (c == 10) as (λ b. List ℕ × Option File × Vfs W) [
      | true ↦ (c ∷ [], r.1, r.2)
      | false ↦ (let rest = get_line fsop (suc room) r.1 r.2 in (c ∷ rest.0, rest.1, rest.2))
    ]
  ]

  -- `fgets` stores the bytes of the line, and leaves the rest of the file.
  get_line_lem :
      (room : ℕ) (v : Vfs W)
      → Ready v
      → (v' : Vfs W) × (get_line fsop (suc room) (some fp) v ≡ (line_of room (left v), some fp, v'))
        × Ready v'
        × (left v' ≡ behind_line room (left v))
  unfolding get_line
  get_line_lem zero v p = (v, refl, p, refl)
  get_line_lem (suc room) v p = elim (List-cases (left v)) [
    | inl e ↦
        let (v', got, p', l) = fgetc_end v p e in
        (
          v',
          ap (line_from room) got ∙ ap (λ t. (line_of (suc room) t, some fp, v')) (sym e),
          p',
          l ∙ ap (behind_line (suc room)) (sym e),
        )
    | inr (c, rest, e) ↦
        let (v', got, p', l) = fgetc_byte v c rest p e in
        elim (Bool-cases (c == 10)) [
          | inl z ↦
              let text : line_of (suc room) (left v) ≡ c ∷ [] =
                ap (line_of (suc room)) e ∙ rw z refl in
              let after : behind_line (suc room) (left v) ≡ rest =
                ap (behind_line (suc room)) e ∙ rw z refl in
              (
                v',
                ap (line_from room) got
                    ∙ ap (after_byte room c v') z
                    ∙ ap (λ t. (t, some fp, v')) (sym text),
                p',
                l ∙ sym after,
              )
          | inr z ↦
              let text : line_of (suc room) (left v) ≡ c ∷ line_of room rest =
                ap (line_of (suc room)) e ∙ rw z refl in
              let after : behind_line (suc room) (left v) ≡ behind_line room rest =
                ap (behind_line (suc room)) e ∙ rw z refl in
              let (v2, got2, p2, l2) = get_line_lem room v' p' in
              (
                v2,
                ap (line_from room) got
                    ∙ ap (after_byte room c v') z
                    ∙ ap (λ r. (c ∷ r.0, r.1, r.2)) got2
                    ∙ ap (λ t. (c ∷ line_of room t, some fp, v2)) l
                    ∙ ap (λ t. (t, some fp, v2)) (sym text),
                p2,
                l2 ∙ ap (behind_line room) l ∙ sym after,
              )
        ]
  ]

  -- What `fgets` returns for what its loop has stored.
  abbrev from_line : List ℕ × Option File × Vfs W → Option (List ℕ) × Option File × Vfs W
  from_line r =
      (elim r.0 as (λ l. Option (List ℕ)) [ [] ↦ none | c ∷ line ↦ some (c ∷ line) ], r.1, r.2)

  pub fgets_line :
      (room : ℕ) (v : Vfs W) (c : ℕ) (rest : List ℕ)
      → Ready v
      → left v ≡ c ∷ rest
      → (v' : Vfs W) × (fgets fsop (suc (suc room)) (some fp) v
          ≡ (some (line_of (suc room) (c ∷ rest)), some fp, v'))
        × Ready v'
        × (left v' ≡ behind_line (suc room) (c ∷ rest))
  unfolding fgets
  fgets_line room v c rest p e =
      let (v', got, p', l) = get_line_lem (suc room) v p in
      let text = ap (line_of (suc room)) e in
      (
        v',
        ap from_line (got ∙ ap (λ t. (t, some fp, v')) text)
            ∙ elim (Bool-cases (c == 10)) [ inl z ↦ rw z refl | inr z ↦ rw z refl ],
        p',
        l ∙ ap (behind_line (suc room)) e,
      )

  pub fgets_end :
      (room : ℕ) (v : Vfs W)
      → Ready v
      → left v ≡ []
      → (v' : Vfs W) × (fgets fsop (suc (suc room)) (some fp) v ≡ (none, some fp, v'))
  unfolding fgets
  fgets_end room v p e =
      let (v', got, p', l) = get_line_lem (suc room) v p in
      (v', ap from_line (got ∙ ap (λ t. (t, some fp, v')) (ap (line_of (suc room)) e)))
