-- ===== src/Memtree.antt =====
-- The tree of the memory file system, src/fsmem.c: nodes linked by pointers, handles on them, and the
-- opening of paths across mount points. A pointer is a number, and 0 is the null pointer. The outcome
-- of an allocation is an argument, the address or `none`. A loop along a list of nodes has a number
-- of rounds, and gives `none` where they are too few.
pub mod Chains
pub mod Tree
pub mod Empty
pub mod Walk
pub mod Linking
pub mod Fresh
pub mod Snoc
pub mod Create
pub mod Local
pub mod Kept
pub mod RoundTrip
pub mod Without
pub mod Unlink
pub mod Unlinked
pub mod Taken
pub mod Remove
pub mod Listing
pub mod Dangling
mod Tests
use boss.Prelude.{
  ℕ, zero, suc, ◌+◌, ◌-◌, Bool, true, false, Option, none, some, List, [], ◌∷◌, length, take, ltb,
  ◌==◌, ◌&&◌, not, if◌then◌else◌, ℤ, pos, negsuc, update,
}
use boss.Text.{strcmp, strcasecmp}
use boss.Paths.{fs_path_skipsep, fs_path_next}
use boss.Memfile.{MemFile}

-- `struct memfs_node`. Of the union, `file` is used for a file, and `clist` and `ctail` for a
-- directory.
pub record MemNode : Type 0 where
  pub is_dir : Bool
  pub file : MemFile
  pub clist : ℕ
  pub ctail : ℕ
  pub name : List ℕ
  pub parent : ℕ
  pub next : ℕ
  pub fsnode : ℕ

-- `struct fs_node` with the data that it points to: the node, and for a directory the child that
-- `readdir` is at.
pub record FsNode : Type 0 where
  pub is_dir : Bool
  pub node : ℕ
  pub cur : ℕ
  pub mnt : ℕ

pub data Errno : Type 0 where
  no_error : Errno
  not_dir : Errno
  no_entry : Errno
  no_memory : Errno
  exists : Errno
  busy : Errno

-- The memory: the nodes, the handles, which are `none` when they are not allocated, and `errno`.
pub record Memfs : Type 0 where
  pub rootdir : ℕ
  pub nodes : ℕ → MemNode
  pub handles : ℕ → Option FsNode
  pub errno : Errno

abbrev pub set_node : ℕ → MemNode → Memfs → Memfs
set_node n node s = record s { nodes = update s.nodes n node }

abbrev pub set_handle : ℕ → Option FsNode → Memfs → Memfs
set_handle h fsn s = record s { handles = update s.handles h fsn }

abbrev pub fail : Errno → Memfs → Memfs
fail e s = record s { errno = e }

-- What `calloc` and the assignment in `alloc_node` make of the node.
unfoldable pub alloc_node : Bool → MemNode
alloc_node is_dir = record {
  is_dir = is_dir;
  file = record { data_at = λ i. 0; size = 0; max_size = 0 };
  clist = 0;
  ctail = 0;
  name = [];
  parent = 0;
  next = 0;
  fsnode = 0;
}

-- DEV_MEMDISK.
abbrev pub dev_memdisk : ℕ
dev_memdisk = 65536

-- `fsmem_create` for the device `dev`, where its allocations give memory; it panics otherwise.
unfoldable pub fsmem_create : ℕ → ℕ → Memfs → Option Memfs
fsmem_create dev root s = elim (dev == dev_memdisk) [
  | false ↦ none
  | true ↦ some (set_node root (alloc_node true) (record s { rootdir = root }))
]

unfoldable pub add_child : ℕ → ℕ → Memfs → Memfs
add_child d n s =
    let dir = s.nodes d in
    let linked =
      if dir.clist == 0
      then set_node d (record dir { clist = n; ctail = n }) s
      else (let s' = set_node dir.ctail (record (s.nodes dir.ctail) { next = n }) s in
          set_node d (record (s'.nodes d) { ctail = n }) s') in
    set_node n (record (linked.nodes n) { parent = d }) linked

-- The loop of `find_entry` from the child `n`; 0 where there is none of that name.
unfoldable pub find_child : ℕ → Memfs → ℕ → List ℕ → Option ℕ
find_child zero s n name = none
find_child (suc fuel) s n name = elim (n == 0) [
  | true ↦ some 0
  | false ↦ elim (strcasecmp (s.nodes n).name name) [
    | pos zero ↦ some n
    | pos (suc k) ↦ find_child fuel s (s.nodes n).next name
    | negsuc k ↦ find_child fuel s (s.nodes n).next name
  ]
]

abbrev pub says_equal : ℤ → Bool
says_equal (pos zero) = true
says_equal (pos (suc k)) = false
says_equal (negsuc k) = false

unfoldable pub find_entry : ℕ → Memfs → ℕ → List ℕ → Option ℕ
find_entry fuel s d name =
    if says_equal (strcmp name (b'.' ∷ []))
    then some d
    else if says_equal (strcmp name (b'.' ∷ b'.' ∷ []))
    then some (s.nodes d).parent
    else find_child fuel s (s.nodes d).clist name

-- The file system that is mounted on a node, 0 for none. `none` is a read of a handle that has been
-- freed.
unfoldable pub mounted_on : Memfs → ℕ → Option ℕ
mounted_on s n =
    let h : ℕ = (s.nodes n).fsnode in
    if h == 0 then some 0 else elim (s.handles h) [ none ↦ none | some fsn ↦ some fsn.mnt ]

-- Where `open` gets to before it makes a handle.
pub data WalkEnd : Type 0 where
  error : Errno → WalkEnd
  elsewhere : WalkEnd
  found : ℕ → WalkEnd
  missing : ℕ → List ℕ → WalkEnd
  crosses : ℕ → List ℕ → WalkEnd
  dangling : WalkEnd
  endless : WalkEnd

-- The last checks of `open`.
unfoldable pub arrive : Bool → ℕ → Memfs → WalkEnd
arrive excl n s = elim (mounted_on s n) [
  | none ↦ dangling
  | some mnt ↦ elim (mnt == 0) [
    | true ↦ if excl then error exists else found n
    | false ↦ crosses mnt (b'/' ∷ [])
  ]
]

-- A round of the loop of `open`: the end of the walk, or the next node and the rest of the path.
pub data Visited : Type 0 where
  stop : WalkEnd → Visited
  go : ℕ → List ℕ → Visited

-- The part of a round behind `fs_path_next`, with its name and the rest of the path.
unfoldable pub descend : ℕ → Bool → ℕ → List ℕ × List ℕ → Memfs → Visited
descend rounds create n (name, rest) s = elim (find_entry rounds s n name) [
  | none ↦ stop endless
  | some m ↦ elim (m == 0) [
    | false ↦ go m rest
    | true ↦ elim rest [
      | c ∷ path ↦ stop (error no_entry)
      | [] ↦ stop (if create then missing n name else error no_entry)
    ]
  ]
]

unfoldable pub visit : ℕ → Bool → ℕ → List ℕ → Memfs → Visited
visit rounds create n path s = elim (s.nodes n).is_dir [
  | false ↦ stop (error not_dir)
  | true ↦ elim (mounted_on s n) [
    | none ↦ stop dangling
    | some mnt ↦ elim (mnt == 0) [
      | false ↦ stop (crosses mnt (b'/' ∷ path))
      | true ↦ descend rounds create n (fs_path_next path 121) s
    ]
  ]
]

-- The loop of `open` at the node `n`. It takes a name off the path in each round; `rounds` is for the
-- loops of `find_entry`.
unfoldable pub walk_path : ℕ → ℕ → Bool → Bool → ℕ → List ℕ → Memfs → WalkEnd
walk_path fuel rounds create excl n [] s = arrive excl n s
walk_path zero rounds create excl n (c ∷ path) s = endless
walk_path (suc fuel) rounds create excl n (c ∷ path) s = elim (visit rounds create n (c ∷ path) s) [
  | stop end ↦ end
  | go m rest ↦ walk_path fuel rounds create excl m rest s
]

-- The start of `open`: `cwd` is the directory of `cwdnode`, or `none` where that is on another kind of
-- file system.
unfoldable pub open_from : ℕ → Bool → Bool → Option ℕ → List ℕ → Memfs → WalkEnd
open_from rounds create excl cwd [] s = elim cwd [
  | none ↦ elsewhere
  | some n ↦ walk_path 0 rounds create excl n [] s
]
open_from rounds create excl cwd (c ∷ path) s = elim (c == b'/') [
  | true ↦ walk_path (suc (length path)) rounds create excl s.rootdir (fs_path_skipsep (c ∷ path)) s
  | false ↦ elim cwd [
    | none ↦ elsewhere
    | some n ↦ walk_path (suc (length path)) rounds create excl n (c ∷ path) s
  ]
]

-- `create_fsnode`, with the outcome of its two allocations.
unfoldable pub create_fsnode : Option ℕ → Bool → ℕ → Memfs → ℕ × Memfs
create_fsnode none data_ok n s = (0, fail no_memory s)
create_fsnode (some h) false n s = (0, fail no_memory s)
create_fsnode (some h) true n s =
    let node = s.nodes n in
    let fsn : FsNode = record { is_dir = node.is_dir; node = n; cur = node.clist; mnt = 0 } in
    let kept = if node.fsnode == 0 then record node { fsnode = h } else node in
    (h, set_handle h (some fsn) (set_node n kept s))

-- What `open` does at the end of the walk, with the outcome of `alloc_node` and the handle. Opening on
-- another file system is left to it, and gives `none` here, as does a crash.
unfoldable pub finish_open :
    Bool → Option ℕ → Option ℕ → Bool → WalkEnd → Memfs → Option (ℕ × Memfs)
finish_open dir new h ok (error e) s = some (0, fail e s)
finish_open dir new h ok elsewhere s = some (0, s)
finish_open dir new h ok (found n) s = some (create_fsnode h ok n s)
finish_open dir none h ok (missing d name) s = some (0, fail no_memory s)
finish_open dir (some n) h ok (missing d name) s =
    let node = record (alloc_node dir) { name = name } in
    some (create_fsnode h ok n (add_child d n (set_node n node s)))
finish_open dir new h ok (crosses mnt path) s = none
finish_open dir new h ok dangling s = none
finish_open dir new h ok endless s = none

-- `close`, which leaves the node's `fsnode` as it is.
unfoldable pub close : ℕ → Memfs → Memfs
close h s = set_handle h none s

unfoldable pub rewinddir : ℕ → FsNode → Memfs → ℤ × Memfs
rewinddir h fsn s =
    if fsn.is_dir
    then (pos 0, set_handle h (some (record fsn { cur = (s.nodes fsn.node).clist })) s)
    else (negsuc 0, s)

-- `struct fs_dirent`.
pub record Dirent : Type 0 where
  pub name : List ℕ
  pub is_dir : Bool
  pub fsize : ℕ

-- `readdir`. The size is read from the union also for a directory, where `ctail` is in its place.
unfoldable pub readdir : ℕ → FsNode → Memfs → Option Dirent × Memfs
readdir h fsn s =
    let n = s.nodes fsn.cur in
    if not fsn.is_dir then (none, s) else if fsn.cur == 0 then (none, s) else (
      some (record {
        name = n.name;
        is_dir = n.is_dir;
        fsize = if n.is_dir then n.ctail else n.file.size;
      }),
      set_handle h (some (record fsn { cur = n.next })) s,
    )

-- `rename` cuts the name at MAX_NAME.
unfoldable pub rename : ℕ → List ℕ → Memfs → Memfs
rename n name s = set_node n (record (s.nodes n) { name = take 120 name }) s

-- The loop of `remove`, which unlinks `n` from the children of `par`. `prev` is `none` for `dummy`,
-- whose address is `dummy` and whose next node is `head`. The nodes themselves are never freed.
unfoldable pub unlink : ℕ → ℕ → ℕ → ℕ → Option ℕ → ℕ → Memfs → Option (Bool × ℕ × Memfs)
unlink zero dummy n par prev head s = none
unlink (suc fuel) dummy n par prev head s =
    let cur = elim prev as (λ p. ℕ) [ none ↦ head | some p ↦ (s.nodes p).next ] in
    let place = elim prev as (λ p. ℕ) [ none ↦ dummy | some p ↦ p ] in
    let cut =
      if (s.nodes par).ctail == n
      then set_node par (record (s.nodes par) { ctail = place }) s
      else s in
    let after : ℕ = (cut.nodes n).next in
    elim (cur == 0) [
      | true ↦ some (false, head, s)
      | false ↦ elim (cur == n) [
        | true ↦ elim prev [
          | none ↦ some (true, after, cut)
          | some p ↦ some (true, head, set_node p (record (cut.nodes p) { next = after }) cut)
        ]
        | false ↦ unlink fuel dummy n par (some cur) head s
      ]
    ]

-- `remove` of the node `n`.
unfoldable pub remove : ℕ → ℕ → ℕ → Memfs → Option (ℤ × Memfs)
remove rounds dummy n s =
    let node = s.nodes n in
    let par = node.parent in
    if node.is_dir && not (node.clist == 0)
    then some (negsuc 0, fail exists s)
    else if par == 0
    then some (negsuc 0, fail busy s)
    else elim (unlink rounds dummy n par none (s.nodes par).clist s) [
      | none ↦ none
      | some (done, head, s') ↦ some (
        (if done then pos 0 else negsuc 0),
        set_node par (record (s'.nodes par) { clist = head }) s',
      )
    ]
