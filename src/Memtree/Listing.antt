-- ===== src/Memtree/Listing.antt =====
-- Reading the entries of a directory of src/fsmem.c one after the other.
use boss.Prelude.{
  ℕ, zero, suc, ◌<◌, ◌≡◌, ◌≢◌, refl, ◌∙◌, sym, ap, Bool, true, false, inl, inr, Bool-cases, Option,
  none, some, List, [], ◌∷◌, map, length, ◌==◌, if◌then◌else◌, not, arith, pos, negsuc,
}
use boss.Memtree.{MemNode, FsNode, Memfs, set_handle, Dirent, readdir, rewinddir}
use boss.Memtree.Chains.{Chain}
use boss.Memtree.Tree.{IsTree}
use boss.Memtree.Linking.{update_here}

-- The names that calls of `readdir` give, up to the null pointer or the number of calls, and whether
-- they are of directories.
unfoldable pub read_all : ℕ → ℕ → FsNode → Memfs → List (List ℕ × Bool)
read_all zero h fsn s = []
read_all (suc calls) h fsn s = elim (readdir h fsn s).0 [
  | none ↦ []
  | some e ↦
      (e.name, e.is_dir) ∷ elim ((readdir h fsn s).1.handles h) as (λ o. List (List ℕ × Bool)) [
        | none ↦ []
        | some next ↦ read_all calls h next (readdir h fsn s).1
      ]
]

-- The children of a directory.
abbrev pub child_entry : (ℕ → MemNode) → ℕ → List ℕ × Bool
child_entry nodes k = ((nodes k).name, (nodes k).is_dir)

abbrev at_next : FsNode → Memfs → FsNode
at_next fsn s = record fsn { cur = (s.nodes fsn.cur).next }

abbrev dirent : Memfs → ℕ → Dirent
dirent s n = record {
  name = (s.nodes n).name;
  is_dir = (s.nodes n).is_dir;
  fsize = if (s.nodes n).is_dir then (s.nodes n).ctail else (s.nodes n).file.size;
}

abbrev readdir_by : Bool → Bool → ℕ → FsNode → Memfs → Option Dirent × Memfs
readdir_by dir end h fsn s =
    if not dir
    then (none, s)
    else if end
    then (none, s)
    else (some (dirent s fsn.cur), set_handle h (some (at_next fsn s)) s)

readdir-by :
    (h : ℕ) (fsn : FsNode) (s : Memfs)
    → readdir h fsn s ≡ readdir_by fsn.is_dir (fsn.cur == 0) h fsn s
unfolding readdir
readdir-by h fsn s = refl

readdir_end : (h : ℕ) (fsn : FsNode) (s : Memfs) → fsn.cur ≡ 0 → readdir h fsn s ≡ (none, s)
readdir_end h fsn s e =
    let end : (fsn.cur == 0) ≡ true = ground (arith, e) in
    readdir-by h fsn s
    ∙ ap (λ b. readdir_by fsn.is_dir b h fsn s) end
    ∙ (elim (Bool-cases fsn.is_dir) [
      | inl d ↦ ap (λ b. readdir_by b true h fsn s) d
      | inr d ↦ ap (λ b. readdir_by b true h fsn s) d
    ])

readdir_more :
    (h : ℕ) (fsn : FsNode) (s : Memfs)
    → fsn.is_dir ≡ true
    → fsn.cur ≢ 0
    → readdir h fsn s ≡ (some (dirent s fsn.cur), set_handle h (some (at_next fsn s)) s)
readdir_more h fsn s d ne =
    let more : (fsn.cur == 0) ≡ false = ground (arith, ne) in
    readdir-by h fsn s
    ∙ ap (λ b. readdir_by fsn.is_dir b h fsn s) more
    ∙ ap (λ b. readdir_by b false h fsn s) d

abbrev entries_after : ℕ → ℕ → Option Dirent × Memfs → List (List ℕ × Bool)
entries_after calls h r = elim r.0 as (λ o. List (List ℕ × Bool)) [
  | none ↦ []
  | some e ↦ (e.name, e.is_dir) ∷ elim (r.1.handles h) as (λ o. List (List ℕ × Bool)) [
    | none ↦ []
    | some next ↦ read_all calls h next r.1
  ]
]

Chain-from :
    (nodes : ℕ → MemNode) (p q : ℕ) (xs : List ℕ) → p ≡ q → Chain nodes q xs → Chain nodes p xs
Chain-from nodes p q xs e c = rw e c

read_all-Chain :
    (calls h : ℕ) (fsn : FsNode) (s : Memfs) (xs : List ℕ)
    → fsn.is_dir ≡ true
    → Chain s.nodes fsn.cur xs
    → length xs < calls
    → read_all calls h fsn s ≡ map (child_entry s.nodes) xs
unfolding read_all
read_all-Chain zero h fsn s xs dir c enough = absurd (omega arith)
read_all-Chain (suc calls) h fsn s [] dir c enough =
    ap (entries_after calls h) (readdir_end h fsn s c)
read_all-Chain (suc calls) h fsn s (x ∷ xs) dir (a, b, c) enough =
    let s' = set_handle h (some (at_next fsn s)) s in
    let next : Chain s.nodes (at_next fsn s).cur xs =
      Chain-from s.nodes (at_next fsn s).cur (s.nodes x).next xs (ap (λ y. (s.nodes y).next) a) c in
    let rest = read_all-Chain calls h (at_next fsn s) s' xs dir next (omega arith) in
    let found = update_here s.handles h (some (at_next fsn s)) in
    ap (entries_after calls h) (readdir_more h fsn s dir (λ z. b (sym a ∙ z)))
    ∙ ap
        (λ o. child_entry s.nodes fsn.cur ∷ elim o as (λ o. List (List ℕ × Bool)) [
          | none ↦ []
          | some next ↦ read_all calls h next s'
        ])
        found
    ∙ ap (λ e. child_entry s.nodes fsn.cur ∷ e) rest
    ∙ ap (λ y. child_entry s.nodes y ∷ map (child_entry s.nodes) xs) a

-- From `rewinddir` on, `readdir` gives each child of the directory once, in the order of the
-- list, and then the null pointer.
pub readdir_lem :
    (live : ℕ → Bool) (kids : ℕ → List ℕ) (s : Memfs) (h : ℕ) (fsn : FsNode) (calls : ℕ)
    → IsTree live kids s
    → live fsn.node ≡ true
    → (s.nodes fsn.node).is_dir ≡ true
    → fsn.is_dir ≡ true
    → length (kids fsn.node) < calls
    → (first : FsNode) × (rewinddir h fsn s ≡ (pos 0, set_handle h (some first) s))
      × (read_all calls h first (set_handle h (some first) s)
          ≡ map (child_entry s.nodes) (kids fsn.node))
unfolding rewinddir
readdir_lem live kids s h fsn calls ok l dir d enough =
    let first : FsNode = record fsn { cur = (s.nodes fsn.node).clist } in
    let s' : Memfs = set_handle h (some first) s in
    (
      first,
      ap (λ b. if b then (pos 0, s') else (negsuc 0, s)) d,
      read_all-Chain calls h first s' (kids fsn.node) d (ok.chain fsn.node l dir) enough,
    )
