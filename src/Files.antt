-- ===== src/Files.antt =====
-- The files of the C library, src/libc/file.c, over the file system layer of src/fs.c. A FILE pointer
-- is an Option, `none` for a null one. The buffer of a call that fills one is its result.
pub mod Lines
pub mod Memory
pub mod Whole
mod Tests
use boss.Prelude.{
  ℕ, zero, suc, ◌+◌, ◌-◌, ◌*◌, ◌/◌, ◌^◌, ◌<◌, Bool, true, false, Option, none, some, List, [], ◌∷◌,
  length, get_or, ltb, ◌==◌, ◌&&◌, ◌||◌, not, if◌then◌else◌, ℤ, pos, negsuc,
}
use boss.Fs.{
  OpenNode, FsOperations, Vfs, fs_open, fs_close, fs_filesize, fs_seek, fs_tell, fs_read, fs_write,
}

-- The bits of `mode`.
pub record Mode : Type 0 where
  pub reads : Bool
  pub writes : Bool
  pub appends : Bool
  pub creates : Bool
  pub truncates : Bool

-- `FILE`, with the bits of `status`.
pub record File : Type 0 where
  pub mode : Mode
  pub at_eof : Bool
  pub has_err : Bool
  pub fsn : OpenNode

abbrev pub no_mode : Mode
no_mode = record {
  reads = false;
  writes = false;
  appends = false;
  creates = false;
  truncates = false;
}

-- What a byte of the mode sets, `none` for one that is no mode; `plus` is whether `+` follows it,
-- which only counts behind these three.
abbrev pub takes_plus : ℕ → Bool
takes_plus c = c == b'r' || c == b'w' || c == b'a'

unfoldable pub mode_of : ℕ → Bool → Mode → Option Mode
mode_of c plus m =
    if c == b'r'
    then some (record m { reads = true; writes = m.writes || plus })
    else if c == b'w'
    then some (record m {
      writes = true;
      truncates = true;
      reads = m.reads || plus;
      creates = m.creates || plus;
    })
    else if c == b'a'
    then some (record m {
      writes = true;
      appends = true;
      reads = m.reads || plus;
      creates = m.creates || plus;
    })
    else if c == b'b'
    then some m
    else none

-- The loop of `fopen` over the mode.
unfoldable pub parse_mode : List ℕ → Mode → Option Mode
parse_mode [] m = some m
parse_mode (c ∷ []) m = mode_of c false m
parse_mode (c ∷ d ∷ mode) m = elim (takes_plus c && d == b'+') [
  | true ↦ elim (mode_of c true m) [ none ↦ none | some m' ↦ parse_mode mode m' ]
  | false ↦ elim (mode_of c false m) [ none ↦ none | some m' ↦ parse_mode (d ∷ mode) m' ]
]

-- What `fopen` gives: a file, or null with `errno` set.
pub data Fopened : Type 0 where
  opened : File → Fopened
  einval : Fopened
  enoent : Fopened
  eisdir : Fopened
  enomem : Fopened

module _ {W : Type 0} (fsop : ℕ → FsOperations W) where
  -- `fopen` with the outcome of `malloc`; `none` is a crash of `fs_open`.
  unfoldable pub fopen : Bool → List ℕ → List ℕ → Vfs W → Option (Fopened × Vfs W)
  fopen mem path mode v = elim (parse_mode mode no_mode) [
    | none ↦ some (einval, v)
    | some m ↦ elim (fs_open fsop path 0 v) [
      | none ↦ none
      | some (none, v') ↦ some (enoent, v')
      | some (some node, v') ↦
          if node.is_dir
          then some (eisdir, v')
          else if mem
          then some (opened (record { mode = m; at_eof = false; has_err = false; fsn = node }), v')
          else some (enomem, v')
    ]
  ]

  unfoldable pub fclose : Option File → Vfs W → ℤ × Vfs W
  fclose none v = (negsuc 0, v)
  fclose (some fp) v = (pos 0, (fs_close fsop (some fp.fsn) v).1)

  unfoldable pub filesize : File → Vfs W → ℤ
  filesize fp v = fs_filesize fsop fp.fsn v

  -- `from` is 0, 1 or 2, or refused; the result of `fs_seek` is not.
  unfoldable pub fseek : Option File → ℤ → ℤ → Vfs W → ℤ × Option File × Vfs W
  fseek none offset whence v = (negsuc 0, none, v)
  fseek (some fp) offset (negsuc n) v = (negsuc 0, some fp, v)
  fseek (some fp) offset (pos n) v =
      if ltb 2 n
      then (negsuc 0, some fp, v)
      else (pos 0, some (record fp { at_eof = false }), (fs_seek fsop fp.fsn offset n v).1)

  unfoldable pub rewind : Option File → Vfs W → Option File × Vfs W
  rewind fp v = let r = fseek fp (pos 0) (pos 0) v in (r.1, r.2)

  unfoldable pub ftell : Option File → Vfs W → ℤ
  ftell none v = negsuc 0
  ftell (some fp) v = fs_tell fsop fp.fsn v

  -- The result of a call as `size_t`, -1 apart.
  abbrev pub whole_items : ℤ → ℕ → Option ℕ
  whole_items (pos n) size = some (n / size)
  whole_items (negsuc zero) size = none
  whole_items (negsuc (suc n)) size = some ((2 ^ 32 - (n + 2)) / size)

  -- `fread`, for a size that is not 0: the number of items, and the bytes in the buffer.
  unfoldable pub fread : ℕ → ℕ → Option File → Vfs W → ℕ × List ℕ × Option File × Vfs W
  fread size count none v = (0, [], none, v)
  fread size count (some fp) v =
      let r = fs_read fsop fp.fsn (pos (size * count)) v in
      elim (whole_items r.0.0 size) [
        | none ↦ (0, r.0.1, some (record fp { at_eof = true }), r.1)
        | some n ↦ (n, r.0.1, some fp, r.1)
      ]

  unfoldable pub fwrite : List ℕ → ℕ → ℕ → Option File → Vfs W → ℕ × Option File × Vfs W
  fwrite buf size count none v = (0, none, v)
  fwrite buf size count (some fp) v =
      let r = fs_write fsop fp.fsn buf (pos (size * count)) v in
      if not fp.mode.writes
      then (0, some (record fp { has_err = true }), v)
      else elim (whole_items r.0 size) [ none ↦ (0, some fp, r.1) | some n ↦ (n, some fp, r.1) ]

  unfoldable pub fgetc : Option File → Vfs W → ℤ × Option File × Vfs W
  fgetc fp v =
      let r = fread 1 1 fp v in (if ltb r.0 1 then negsuc 0 else pos (get_or r.1 0 0), r.2, r.3)

  -- The loop of `fgets`, with `size` before its test: the bytes that it stores.
  unfoldable pub get_line : ℕ → Option File → Vfs W → List ℕ × Option File × Vfs W
  get_line zero fp v = ([], fp, v)
  get_line (suc zero) fp v = ([], fp, v)
  get_line (suc (suc size)) fp v =
      let r = fgetc fp v in
      elim r.0 [
        | negsuc n ↦ ([], r.1, r.2)
        | pos c ↦ elim (c == 10) [
          | true ↦ (c ∷ [], r.1, r.2)
          | false ↦ (let rest = get_line (suc size) r.1 r.2 in (c ∷ rest.0, rest.1, rest.2))
        ]
      ]

  -- `fgets`: what is stored in the buffer, or null if nothing is.
  unfoldable pub fgets : ℕ → Option File → Vfs W → Option (List ℕ) × Option File × Vfs W
  fgets size fp v =
      let r = get_line size fp v in (elim r.0 [ [] ↦ none | c ∷ line ↦ some (c ∷ line) ], r.1, r.2)

  unfoldable pub feof : File → Bool
  feof fp = fp.at_eof

  unfoldable pub ferror : File → Bool
  ferror fp = fp.has_err

  unfoldable pub clearerr : File → File
  clearerr fp = record fp { at_eof = false; has_err = false }
