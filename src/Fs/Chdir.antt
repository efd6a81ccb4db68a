-- ===== src/Fs/Chdir.antt =====
-- `fs_chdir` of src/fs.c: the current directory and its path.
use boss.Prelude.{
  ℕ, zero, suc, ◌+◌, ◌-ℤ◌, ◌<◌, ◌≤◌, ◌≡◌, ◌≢◌, Bool-cases, inl, inr, refl, ◌∙◌, sym, ap, true,
  false, Option, none, some, List, [], ◌∷◌, ◌++◌, length, length-append, take, get_or, ltb, leb,
  ◌==◌, if◌then◌else◌, pos, arith,
}
use boss.Text.{strcmp, diff_by}
use boss.Memtree.{says_equal}
use boss.Paths.Names.{IsName}
use boss.Fs.{
  OpenNode, FsOperations, Vfs, last_sep, up_path, join_path, fs_open, fs_close, enter_dir, fs_chdir,
}

get_or-append : (p q : List ℕ) (i k : ℕ) → k ≡ length p + i → get_or (p ++ q) k 0 ≡ get_or q i 0
get_or-append [] q i k e = ap (λ j. get_or q j 0) (omega (arith, e))
get_or-append (x ∷ p) q i zero e = absurd (omega (arith, e))
get_or-append (x ∷ p) q i (suc k) e = get_or-append p q i k (omega (arith, e))

take_front : (p q : List ℕ) → take (length p) (p ++ q) ≡ p
take_front [] q = refl
take_front (x ∷ p) q = ap (λ r. x ∷ r) (take_front p q)

get_or-IsName : (name : List ℕ) (i : ℕ) → IsName name → (get_or name i 0 == b'/') ≡ false
get_or-IsName [] i h = refl
get_or-IsName (c ∷ name) zero h = h.0
get_or-IsName (c ∷ name) (suc i) h = get_or-IsName name i h.1

-- The last separator is the one in front of the name.
last_sep-append :
    (p name : List ℕ) (j k : ℕ)
    → IsName name
    → k ≡ suc (length p + j)
    → last_sep k (p ++ (b'/' ∷ name)) ≡ length p
unfolding last_sep
last_sep-append p name j zero h e = absurd (omega (arith, e))
last_sep-append p name zero (suc k) h e =
    let at : get_or (p ++ (b'/' ∷ name)) k 0 ≡ b'/' =
      get_or-append p (b'/' ∷ name) 0 k (omega (arith, e)) in
    let sep : (get_or (p ++ (b'/' ∷ name)) k 0 == b'/') ≡ true = ground (arith, at) in
    rw (sep, last_sep) (omega (arith, e))
last_sep-append p name (suc j) (suc k) h e =
    let at = get_or-append p (b'/' ∷ name) (suc j) k (omega (arith, e)) in
    let other : (get_or (p ++ (b'/' ∷ name)) k 0 == b'/') ≡ false =
      ap (λ c. c == b'/') at ∙ get_or-IsName name j h in
    rw (other, last_sep) (last_sep-append p name j k h (omega (arith, e)))

-- Places that a path can be joined to: the root, or more than one byte.
abbrev pub IsPlace : List ℕ → Type 0
IsPlace [] = ⊥
IsPlace (c ∷ []) = c ≡ b'/'
IsPlace (c ∷ d ∷ p) = c ≡ b'/'

up_path-append : (p name : List ℕ) → IsName name → p ≢ [] → up_path (p ++ (b'/' ∷ name)) ≡ p
unfolding up_path
up_path-append [] name h ne = absurd (ne refl)
up_path-append (c ∷ p) name h ne =
    let path = (c ∷ p) ++ (b'/' ∷ name) in
    let stop : last_sep (length path) path ≡ suc (length p) =
      last_sep-append (c ∷ p) name (length name) (length path) h
        (omega (arith, length-append (c ∷ p) (b'/' ∷ name))) in
    let some_way : (last_sep (length path) path == 0) ≡ false = ground (arith, stop) in
    ap (λ b. take (if b then 1 else last_sep (length path) path) path) some_way
    ∙ ap (λ k. take k path) stop
    ∙ take_front (c ∷ p) (b'/' ∷ name)

up_path-root : (name : List ℕ) → IsName name → up_path (b'/' ∷ name) ≡ b'/' ∷ []
unfolding up_path
up_path-root name h =
    let stop : last_sep (suc (length name)) (b'/' ∷ name) ≡ 0 =
      last_sep-append [] name (length name) (suc (length name)) h (omega arith) in
    let none_way : (last_sep (suc (length name)) (b'/' ∷ name) == 0) ≡ true =
      ground (arith, stop) in
    ap (λ b. take (if b then 1 else last_sep (suc (length name)) (b'/' ∷ name)) (b'/' ∷ name))
      none_way

join_path-root :
    (c : ℕ) (name : List ℕ) → IsName (c ∷ name) → join_path (b'/' ∷ []) (c ∷ name) ≡ b'/' ∷ c ∷ name
unfolding join_path
join_path-root c name h = rw h.0 refl

join_path-append :
    (s d : ℕ) (p : List ℕ) (c : ℕ) (name : List ℕ)
    → IsName (c ∷ name)
    → join_path (s ∷ d ∷ p) (c ∷ name) ≡ (s ∷ d ∷ p) ++ (b'/' ∷ c ∷ name)
unfolding join_path
join_path-append s d p c name h =
    let long : ltb 1 (suc (suc (length p))) ≡ true = ground arith in rw (h.0, long) refl

-- The directory above where a name leads.
pub up_path-join_path :
    (p : List ℕ) (c : ℕ) (name : List ℕ)
    → IsPlace p
    → IsName (c ∷ name)
    → (up_path (join_path p (c ∷ name)) ≡ p) × (1 < length (join_path p (c ∷ name)))
up_path-join_path [] c name place h = elim place [ ]
up_path-join_path (s ∷ []) c name place h =
    let root : s ∷ [] ≡ b'/' ∷ [] = ap (λ x. x ∷ []) place in
    let joined = ap (λ q. join_path q (c ∷ name)) root ∙ join_path-root c name h in
    (ap up_path joined ∙ up_path-root (c ∷ name) h ∙ sym root, omega (arith, ap length joined))
up_path-join_path (s ∷ d ∷ p) c name place h =
    let joined = join_path-append s d p c name h in
    (
      ap up_path joined ∙ up_path-append (s ∷ d ∷ p) (c ∷ name) h (λ e. absurd cc),
      omega (arith, ap length joined, length-append (s ∷ d ∷ p) (b'/' ∷ c ∷ name)),
    )

-- Neither the test of `fs_chdir` nor the size of `cwdpath` is exceeded.
abbrev pub Fits : List ℕ → List ℕ → Type 0
Fits cwd path = (length cwd + length path ≤ 1024) × (length (join_path cwd path) < 1024)

length-join_path : (cwd path : List ℕ) → length (join_path cwd path) ≤ length cwd + length path + 1
unfolding join_path
length-join_path cwd path = elim (Bool-cases (get_or path 0 0 == b'/')) [
  | inl p ↦ rw p (omega arith)
  | inr p ↦ rw p (elim (Bool-cases (ltb 1 (length cwd))) [
    | inl q ↦ rw q (omega (arith, length-append cwd (b'/' ∷ path)))
    | inr q ↦ rw q (omega (arith, length-append cwd path))
  ])
]

small-Fits : (cwd path : List ℕ) → length cwd + length path ≤ 1022 → Fits cwd path
small-Fits cwd path h = (omega arith, omega (arith, length-join_path cwd path))

module _ {W : Type 0} (fsop : ℕ → FsOperations W) where
  -- The state after `fs_chdir` has entered a directory.
  abbrev pub entered : List ℕ → OpenNode → W → Vfs W → Vfs W
  entered cwd node w v =
      record (fs_close fsop v.cwdnode (record v { world = w; cwdpath = cwd })).1 {
        cwdnode = some node;
      }

  -- `fs_chdir` with the node that `fs_open` gives.
  pub chdir_down :
      (c : ℕ) (name : List ℕ) (v : Vfs W) (node : OpenNode) (w : W)
      → says_equal (strcmp (c ∷ name) (b'.' ∷ [])) ≡ false
      → says_equal (strcmp (c ∷ name) (b'.' ∷ b'.' ∷ [])) ≡ false
      → fs_open fsop (c ∷ name) 0 v ≡ some (some node, record v { world = w })
      → node.is_dir ≡ true
      → Fits v.cwdpath (c ∷ name)
      → fs_chdir fsop (c ∷ name) v ≡ some (pos 0, entered (join_path v.cwdpath (c ∷ name)) node w v)
  unfolding fs_chdir enter_dir
  chdir_down c name v node w one two found dir room =
      let within : ltb 1024 (length v.cwdpath + length (c ∷ name)) ≡ false =
        ground (arith, room.0) in
      let held : leb 1024 (length (join_path v.cwdpath (c ∷ name))) ≡ false =
        ground (arith, room.1) in
      rw (one, two, found, dir, within, held) refl

  chdir_up :
      (v : Vfs W) (node : OpenNode) (w : W)
      → 1 < length v.cwdpath
      → fs_open fsop (up_path v.cwdpath) 0 v ≡ some (some node, record v { world = w })
      → node.is_dir ≡ true
      → fs_chdir fsop (b'.' ∷ b'.' ∷ []) v ≡ some (pos 0, entered (up_path v.cwdpath) node w v)
  unfolding fs_chdir enter_dir strcmp diff_by ◌-ℤ◌
  chdir_up v node w far found dir =
      let deep : leb (length v.cwdpath) 1 ≡ false = ground arith in rw (deep, found, dir) refl

  pub close_kept : (o : Option OpenNode) (v : Vfs W) → (fs_close fsop o v).1.cwdpath ≡ v.cwdpath
  unfolding fs_close
  close_kept none v = refl
  close_kept (some node) v = refl

  -- Where a name can be entered from a directory, the path of that directory be opened again, and the
  -- two paths together are at most 1022 bytes, entering the name appends it to the path, and entering
  -- `..` then restores the path, to the byte.
  pub fs_chdir_back :
      (c : ℕ) (name : List ℕ) (v : Vfs W) (node above : OpenNode) (w w' : W)
      → IsPlace v.cwdpath
      → IsName (c ∷ name)
      → says_equal (strcmp (c ∷ name) (b'.' ∷ [])) ≡ false
      → says_equal (strcmp (c ∷ name) (b'.' ∷ b'.' ∷ [])) ≡ false
      → length v.cwdpath + length (c ∷ name) ≤ 1022
      → fs_open fsop (c ∷ name) 0 v ≡ some (some node, record v { world = w })
      → node.is_dir ≡ true
      → fs_open fsop v.cwdpath 0 (entered (join_path v.cwdpath (c ∷ name)) node w v)
        ≡ some
            (some above, record (entered (join_path v.cwdpath (c ∷ name)) node w v) { world = w' })
      → above.is_dir ≡ true
      → (v1 v2 : Vfs W) × (fs_chdir fsop (c ∷ name) v ≡ some (pos 0, v1))
        × (v1.cwdpath ≡ join_path v.cwdpath (c ∷ name))
        × (v1.cwdnode ≡ some node)
        × (fs_chdir fsop (b'.' ∷ b'.' ∷ []) v1 ≡ some (pos 0, v2))
        × (v2.cwdpath ≡ v.cwdpath)
        × (v2.cwdnode ≡ some above)
  fs_chdir_back c name v node above w w' place named one two room found dir again dir' =
      let v1 = entered (join_path v.cwdpath (c ∷ name)) node w v in
      let (up, long) = up_path-join_path v.cwdpath c name place named in
      let at : v1.cwdpath ≡ join_path v.cwdpath (c ∷ name) = close_kept v.cwdnode _ in
      let up1 : up_path v1.cwdpath ≡ v.cwdpath = ap up_path at ∙ up in
      let deep : 1 < length v1.cwdpath = rw at long in
      let opened = ap (λ q. fs_open fsop q 0 v1) up1 ∙ again in
      (
        v1,
        entered (up_path v1.cwdpath) above w' v1,
        chdir_down c name v node w one two found dir (small-Fits v.cwdpath (c ∷ name) room),
        at,
        refl,
        chdir_up v1 above w' deep opened dir',
        close_kept v1.cwdnode _ ∙ up1,
        refl,
      )
