-- ===== src/Memtree/Tests.antt =====
-- Runs of src/fsmem.c on concrete trees: a directory is made in an empty file system, then a file in it.
use boss.Prelude.{
  ℕ, suc, ◌-ℤ◌, pos, negsuc, map, ◌<◌, ◌≡◌, ◌≢◌, refl, Bool, true, false, inl, inr, Bool-cases,
  none, some, List, [], ◌∷◌, length, ◌==◌, arith,
}
use boss.Text.{strcmp, strcasecmp, diff_by}
use boss.Text.Compare.{IsText}
use boss.Memtree.{
  says_equal, remove, fail, busy, no_entry, rewinddir, set_handle, close, arrive, dangling, FsNode,
  Memfs, no_error, error, exists, found, open_from, finish_open, create_fsnode, add_child,
  alloc_node,
}
use boss.Memtree.Tree.{IsTree, IsLocal, lookup, Leads, stay, step}
use boss.Memtree.Empty.{only, no_kids, root_only, root_only-IsTree, root_only-IsLocal}
use boss.Memtree.Fresh.{created}
use boss.Memtree.Create.{live_with, kids_with, created-IsTree}
use boss.Memtree.Local.{created-IsLocal}
use boss.Memtree.Walk.{AllShort, path_of, open_from-Leads, open_from-missing}
use boss.Memtree.RoundTrip.{open_from-finish_open}
use boss.Memtree.Remove.{remove_lem}
use boss.Memtree.Listing.{readdir_lem, read_all, child_entry}
use boss.Memtree.Dangling.{arrive-dangling}
use boss.Memtree.Unlinked.{live_without, kids_without}

abbrev start : Memfs
start = record { rootdir = 0; nodes = λ n. alloc_node false; handles = λ h. none; errno = no_error }

abbrev base : Memfs
base = root_only 1 start

abbrev dos : List ℕ
dos = b'd' ∷ b'o' ∷ b's' ∷ []

abbrev with_dir : Memfs
with_dir = created 1 2 100 true dos base

abbrev live2 : ℕ → Bool
live2 = live_with 2 (only 1)

abbrev kids2 : ℕ → List ℕ
kids2 = kids_with 1 2 no_kids

abbrev file_name : List ℕ
file_name = b'a' ∷ b'.' ∷ b'c' ∷ []

base-IsTree : IsTree (only 1) no_kids base
base-IsTree = root_only-IsTree 1 start (ground arith)

with_dir-IsTree : IsTree live2 kids2 with_dir
unfolding alloc_node
with_dir-IsTree =
    created-IsTree (only 1) no_kids base base-IsTree 1 2 100 true dos refl refl (ground arith) refl

with_dir-IsLocal : IsLocal live2 with_dir
with_dir-IsLocal =
    created-IsLocal 1 2 100 true dos base (only 1) refl (root_only-IsLocal 1 start (ground arith))

few : (x : ℕ) → suc (length (kids2 x)) < 5
few x = elim (Bool-cases (x == 2)) [
  | inl e ↦ rw e (omega arith)
  | inr e ↦ elim (Bool-cases (x == 1)) [
    | inl f ↦ rw (e, f) (omega arith)
    | inr f ↦ rw (e, f) (omega arith)
  ]
]

dir_at : lookup kids2 with_dir 1 dos ≡ 2
unfolding create_fsnode add_child alloc_node strcmp strcasecmp diff_by ◌-ℤ◌
dir_at = refl

to_dir : Leads kids2 with_dir 1 (dos ∷ []) 2
unfolding create_fsnode add_child alloc_node strcmp strcasecmp diff_by ◌-ℤ◌
to_dir = step refl (ground arith) (rw dir_at stay)

is_directory : (with_dir.nodes 2).is_dir ≡ true
unfolding create_fsnode add_child alloc_node strcmp strcasecmp diff_by ◌-ℤ◌
is_directory = refl

is_free : lookup kids2 with_dir 2 file_name ≡ 0
unfolding create_fsnode add_child alloc_node strcmp strcasecmp diff_by ◌-ℤ◌
is_free = refl

not_up : says_equal (strcmp file_name (b'.' ∷ b'.' ∷ [])) ≡ false
unfolding strcmp diff_by ◌-ℤ◌
not_up = refl

file_name-IsText : IsText file_name
file_name-IsText =
    (omega arith, omega arith, (omega arith, omega arith, (omega arith, omega arith, tt)))

names-AllShort : AllShort (dos ∷ file_name ∷ [])
names-AllShort =
    (((refl, (refl, (refl, tt))), omega arith), (((refl, (refl, (refl, tt))), omega arith), tt))

open_from-finish_open_example :
    (s' : Memfs) × (finish_open false
        (some 3)
        (some 104)
        true
        (open_from 5 true true none (b'/' ∷ path_of (dos ∷ file_name ∷ [])) with_dir)
        with_dir
      ≡ some (104, s'))
    × (open_from 5 false false none (b'/' ∷ path_of (dos ∷ file_name ∷ [])) s' ≡ found 3)
    × IsTree (live_with 3 live2) (kids_with 2 3 kids2) s'
    × IsLocal (live_with 3 live2) s'
unfolding create_fsnode add_child alloc_node
open_from-finish_open_example =
    open_from-finish_open live2 kids2 with_dir with_dir-IsTree with_dir-IsLocal 5 few 2 3 104 false
      (dos ∷ []) file_name names-AllShort to_dir is_directory is_free not_up file_name-IsText
      (ground arith) refl true false false none none

fewer : (x : ℕ) → length (kids2 x) < 5
fewer x = omega (arith, few x)

dos-AllShort : AllShort (dos ∷ [])
dos-AllShort = (((refl, (refl, (refl, tt))), omega arith), tt)

open_from-Leads_example :
    open_from 5 false false none (b'/' ∷ path_of (dos ∷ [])) with_dir ≡ found 2
unfolding create_fsnode add_child alloc_node
open_from-Leads_example =
    open_from-Leads live2 kids2 with_dir 5 with_dir-IsTree with_dir-IsLocal fewer false false none 2
      (dos ∷ []) dos-AllShort to_dir

-- A directory that is missing on the way.
open_from-missing_example :
    open_from 5 true false none (b'/' ∷ path_of (dos ∷ file_name ∷ dos ∷ [])) with_dir
    ≡ error no_entry
unfolding create_fsnode add_child alloc_node
open_from-missing_example =
    open_from-missing live2 kids2 with_dir 5 with_dir-IsTree with_dir-IsLocal fewer true false none
      2 (dos ∷ []) file_name (dos ∷ []) (dos-AllShort.0, (names-AllShort.1.0, dos-AllShort)) to_dir
      is_directory is_free

remove_lem_example :
    (kids2 2 ≢ [] → remove 5 900 2 with_dir ≡ some (negsuc 0, fail exists with_dir))
    × (kids2 2 ≡ []
        → (with_dir.nodes 2).parent ≡ 0
        → remove 5 900 2 with_dir ≡ some (negsuc 0, fail busy with_dir))
    × (kids2 2 ≡ []
        → (with_dir.nodes 2).parent ≢ 0
        → (s' : Memfs) × (remove 5 900 2 with_dir ≡ some (pos 0, s'))
          × IsTree (live_without 2 live2) (kids_without 2 (with_dir.nodes 2).parent kids2) s'
          × (IsLocal live2 with_dir → IsLocal (live_without 2 live2) s')
          × ((k : ℕ) → (s'.nodes k).name ≡ (with_dir.nodes k).name)
          × (s'.handles ≡ with_dir.handles))
remove_lem_example = remove_lem live2 kids2 with_dir with_dir-IsTree 2 900 5 refl fewer

abbrev root_handle : FsNode
root_handle = record { is_dir = true; node = 1; cur = 0; mnt = 0 }

readdir_lem_example :
    (first : FsNode) × (rewinddir 7 root_handle with_dir
      ≡ (pos 0, set_handle 7 (some first) with_dir))
    × (read_all 5 7 first (set_handle 7 (some first) with_dir)
        ≡ map (child_entry with_dir.nodes) (2 ∷ []))
unfolding create_fsnode add_child alloc_node
readdir_lem_example =
    readdir_lem live2 kids2 with_dir 7 root_handle 5 with_dir-IsTree refl refl refl (fewer 1)

arrive-dangling_example :
    arrive false 1 (close 100 (create_fsnode (some 100) true 1 base).1) ≡ dangling
unfolding alloc_node
arrive-dangling_example = arrive-dangling base 1 100 false (ground arith) refl
