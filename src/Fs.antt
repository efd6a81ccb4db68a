-- ===== src/Fs.antt =====
-- The layer over the file systems, src/fs.c: mounting, the current directory, and the calls of the
-- operations of the file system that a node is on. The file systems are a parameter, one table of
-- operations for each, on a state of their own. The result of a function that can read through a null
-- pointer or call `panic` is an Option, `none` where it does.
pub mod Chdir
pub mod Outcome
pub mod Mount
mod Tests
use boss.Prelude.{
  ℕ, zero, suc, ◌+◌, ◌-◌, Bool, true, false, Option, none, some, List, [], ◌∷◌, ◌++◌, length, take,
  get_or, ltb, leb, ◌==◌, ◌||◌, not, if◌then◌else◌, ℤ, pos, negsuc, update,
}
use boss.Text.{strcmp}
use boss.Memtree.{Dirent, says_equal}
use boss.Mounts.{Mtab, mtab_add}

-- `struct fs_node`, with its address: the file system it is on, whether it is a directory, and what
-- `data` points to.
pub record OpenNode : Type 0 where
  pub addr : ℕ
  pub fs : ℕ
  pub is_dir : Bool
  pub data_ptr : ℕ

-- `struct fs_operations`; `open` and `close` are `open_node` and `close_node`.
pub record FsOperations (W : Type 0) : Type 0 where
  pub open_node : List ℕ → ℕ → W → Option OpenNode × W
  pub close_node : OpenNode → W → W
  pub fsize : OpenNode → W → ℤ
  pub seek : OpenNode → ℤ → ℕ → W → ℤ × W
  pub tell : OpenNode → W → ℤ
  pub read : OpenNode → ℤ → W → (ℤ × List ℕ) × W
  pub write : OpenNode → List ℕ → ℤ → W → ℤ × W
  pub rewinddir : OpenNode → W → ℤ × W
  pub readdir : OpenNode → W → Option Dirent × W
  pub rename : OpenNode → List ℕ → W → ℤ × W
  pub remove : OpenNode → W → ℤ × W

-- The variables of src/fs.c with the state of the file systems. `cwdpath` is its bytes up to
-- `cwdpath_end`, and `mnts` has the field `mnt` of each node.
pub record Vfs (W : Type 0) : Type 0 where
  pub rootfs : Option ℕ
  pub cwdnode : Option OpenNode
  pub cwdpath : List ℕ
  pub mnts : ℕ → ℕ
  pub mtab : Mtab
  pub world : W

-- The loop of `fs_chdir` from the end of the path back to a separator: where it stops.
unfoldable pub last_sep : ℕ → List ℕ → ℕ
last_sep zero path = 0
last_sep (suc i) path = if get_or path i 0 == b'/' then i else last_sep i path

-- The path of the directory above.
unfoldable pub up_path : List ℕ → List ℕ
up_path path =
    let endptr = last_sep (length path) path in take (if endptr == 0 then 1 else endptr) path

-- `cwdpath` for another path.
unfoldable pub join_path : List ℕ → List ℕ → List ℕ
join_path cwd path =
    if get_or path 0 0 == b'/'
    then path
    else if ltb 1 (length cwd)
    then cwd ++ (b'/' ∷ path)
    else cwd ++ path

module _ {W : Type 0} (fsop : ℕ → FsOperations W) where
  -- The file system that `fs_open` asks.
  unfoldable pub fs_of : List ℕ → Vfs W → Option ℕ
  fs_of [] v = none
  fs_of (c ∷ path) v =
      if c == b'/' then v.rootfs else elim v.cwdnode [ none ↦ none | some node ↦ some node.fs ]

  -- `fs_open`; opening from the root when there is none mounted is the crash.
  unfoldable pub fs_open : List ℕ → ℕ → Vfs W → Option (Option OpenNode × Vfs W)
  fs_open [] flags v = some (none, v)
  fs_open (c ∷ path) flags v = elim (fs_of (c ∷ path) v) [
    | none ↦ if c == b'/' then none else some (none, v)
    | some fs ↦
        (let (node, w) = (fsop fs).open_node (c ∷ path) flags v.world in
          some (node, record v { world = w }))
  ]

  unfoldable pub fs_close : Option OpenNode → Vfs W → ℤ × Vfs W
  fs_close none v = (negsuc 0, v)
  fs_close (some node) v = (pos 0, record v { world = (fsop node.fs).close_node node v.world })

  -- `fs_chdir` behind `fs_open`. `up` says whether `path` is the one for `..`. Another path is a crash
  -- where `panic` is called, and also where the new path and the 0 behind it are longer than the
  -- `char[1024]` that they are written to, which the code does not test.
  unfoldable pub enter_dir : Bool → List ℕ → Option (Option OpenNode × Vfs W) → Option (ℤ × Vfs W)
  enter_dir up path none = none
  enter_dir up path (some (none, v)) = some (negsuc 0, v)
  enter_dir up path (some (some node, v)) =
      let changed = λ (cwd : List ℕ). some (
        pos 0,
        record (fs_close v.cwdnode (record v { cwdpath = cwd })).1 { cwdnode = some node },
      ) in
      if not node.is_dir
      then some (negsuc 0, (fs_close (some node) v).1)
      else if up
      then changed path
      else if ltb 1024 (length v.cwdpath + length path)
          || leb 1024 (length (join_path v.cwdpath path))
      then none
      else changed (join_path v.cwdpath path)

  unfoldable pub fs_chdir : List ℕ → Vfs W → Option (ℤ × Vfs W)
  fs_chdir [] v = some (negsuc 0, v)
  fs_chdir (c ∷ path) v =
      if says_equal (strcmp (c ∷ path) (b'.' ∷ []))
      then some (pos 0, v)
      else if says_equal (strcmp (c ∷ path) (b'.' ∷ b'.' ∷ []))
      then (if leb (length v.cwdpath) 1
          then some (negsuc 0, v)
          else enter_dir true (up_path v.cwdpath) (fs_open (up_path v.cwdpath) 0 v))
      else enter_dir false (c ∷ path) (fs_open (c ∷ path) 0 v)

  -- The loop of `fs_mount` over `createfs`.
  unfoldable pub create_first : List (ℕ → ℕ → ℕ → W → Option ℕ × W) → ℕ → ℕ → ℕ → W → Option ℕ × W
  create_first [] dev start size w = (none, w)
  create_first (create ∷ others) dev start size w =
      let r = create dev start size w in
      elim r.0 [ none ↦ create_first others dev start size r.1 | some fs ↦ (some fs, r.1) ]

  -- `fs_mount` behind the loop; `mem` is the outcome of `malloc` in `mtab_add`.
  unfoldable pub mount_at : Option ℕ → Option ℕ → Option ℕ × W → Vfs W → Option (Option ℕ × Vfs W)
  mount_at mem parent (none, w) v = some (none, record v { world = w })
  mount_at mem none (some fs, w) v =
      elim (fs_chdir (b'/' ∷ []) (record v { rootfs = some fs; world = w })) [
        | none ↦ none
        | some (res, v') ↦ some (some fs, v')
      ]
  mount_at mem (some node) (some fs, w) v = some (
    some fs,
    record v { mnts = update v.mnts node fs; mtab = (mtab_add mem node fs v.mtab).1; world = w },
  )

  unfoldable pub fs_mount :
      List (ℕ → ℕ → ℕ → W → Option ℕ × W)
      → Option ℕ
      → ℕ
      → ℕ
      → ℕ
      → Option ℕ
      → Vfs W
      → Option (Option ℕ × Vfs W)
  fs_mount createfs mem dev start size none v = elim v.rootfs [
    | none ↦ mount_at mem none (create_first createfs dev start size v.world) v
    | some fs ↦ some (none, v)
  ]
  fs_mount createfs mem dev start size (some node) v =
      mount_at mem (some node) (create_first createfs dev start size v.world) v

  -- The calls that are for files alone, and for directories alone.
  unfoldable pub fs_filesize : OpenNode → Vfs W → ℤ
  fs_filesize node v = if node.is_dir then negsuc 0 else (fsop node.fs).fsize node v.world

  unfoldable pub fs_tell : OpenNode → Vfs W → ℤ
  fs_tell node v = if node.is_dir then negsuc 0 else (fsop node.fs).tell node v.world

  unfoldable pub fs_seek : OpenNode → ℤ → ℕ → Vfs W → ℤ × Vfs W
  fs_seek node offs whence v =
      if node.is_dir
      then (negsuc 0, v)
      else (let (res, w) = (fsop node.fs).seek node offs whence v.world in
          (res, record v { world = w }))

  unfoldable pub fs_read : OpenNode → ℤ → Vfs W → (ℤ × List ℕ) × Vfs W
  fs_read node sz v =
      if node.is_dir
      then ((negsuc 0, []), v)
      else (let (res, w) = (fsop node.fs).read node sz v.world in (res, record v { world = w }))

  unfoldable pub fs_write : OpenNode → List ℕ → ℤ → Vfs W → ℤ × Vfs W
  fs_write node buf sz v =
      if node.is_dir
      then (negsuc 0, v)
      else (let (res, w) = (fsop node.fs).write node buf sz v.world in
          (res, record v { world = w }))

  unfoldable pub fs_rewinddir : OpenNode → Vfs W → ℤ × Vfs W
  fs_rewinddir node v =
      if node.is_dir
      then (let (res, w) = (fsop node.fs).rewinddir node v.world in (res, record v { world = w }))
      else (negsuc 0, v)

  unfoldable pub fs_readdir : OpenNode → Vfs W → Option Dirent × Vfs W
  fs_readdir node v =
      if node.is_dir
      then (let (res, w) = (fsop node.fs).readdir node v.world in (res, record v { world = w }))
      else (none, v)

  unfoldable pub fs_rename : OpenNode → List ℕ → Vfs W → ℤ × Vfs W
  fs_rename node name v =
      let (res, w) = (fsop node.fs).rename node name v.world in (res, record v { world = w })

  unfoldable pub fs_remove : OpenNode → Vfs W → ℤ × Vfs W
  fs_remove node v =
      let (res, w) = (fsop node.fs).remove node v.world in (res, record v { world = w })
