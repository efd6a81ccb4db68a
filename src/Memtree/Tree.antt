-- ===== src/Memtree/Tree.antt =====
-- When the nodes of src/fsmem.c are a tree, and what names in it stand for.
use boss.Prelude.{
  ℕ, ◌<◌, ◌≡◌, ◌≢◌, refl, Bool, true, false, inl, inr, ◌⊎◌, Bool-cases, some, List, [], ◌∷◌, length,
  if◌then◌else◌,
}
use boss.Text.{strcmp, strcasecmp}
use boss.Memtree.{MemNode, Memfs, find_entry, says_equal, mounted_on}
use boss.Memtree.Chains.{Has, Nodup, Chain, last_of, first_named, find_child-first}

-- `live` says which nodes are part of the tree, and `kids` lists the children of each directory. They
-- are linked in this order, the last one is the tail, and they are the nodes that have the directory
-- as their parent. The root is a directory and its parent null.
pub record IsTree (live : ℕ → Bool) (kids : ℕ → List ℕ) (s : Memfs) : Type 0 where
  pub not_null : live 0 ≡ false
  pub root_live : live s.rootdir ≡ true
  pub root_dir : (s.nodes s.rootdir).is_dir ≡ true
  pub root_top : (s.nodes s.rootdir).parent ≡ 0
  pub chain :
      (d : ℕ) → live d ≡ true → (s.nodes d).is_dir ≡ true → Chain s.nodes (s.nodes d).clist (kids d)
  pub tail :
      (d : ℕ)
      → live d ≡ true
      → (s.nodes d).is_dir ≡ true
      → ((kids d ≡ []) ⊎ ((s.nodes d).ctail ≡ last_of (kids d)))
  pub apart : (d : ℕ) → Nodup (kids d)
  pub kid_live : (d k : ℕ) → Has k (kids d) → live k ≡ true
  pub kid_parent : (d k : ℕ) → Has k (kids d) → (s.nodes k).parent ≡ d
  pub parent_live :
      (k : ℕ)
      → live k ≡ true
      → ((s.nodes k).parent ≡ 0)
        ⊎ ((live (s.nodes k).parent ≡ true)
            × ((s.nodes (s.nodes k).parent).is_dir ≡ true)
            × Has k (kids (s.nodes k).parent))

-- Handles on nodes of the tree whose `fsnode` is freed or mounts another file system are left out.
pub record IsLocal (live : ℕ → Bool) (s : Memfs) : Type 0 where
  pub local : (n : ℕ) → live n ≡ true → mounted_on s n ≡ some 0

-- The node that a name stands for in a directory, 0 for none: itself, its parent, or its first child
-- of that name.
abbrev pub lookup : (ℕ → List ℕ) → Memfs → ℕ → List ℕ → ℕ
lookup kids s d name =
    if says_equal (strcmp name (b'.' ∷ []))
    then d
    else if says_equal (strcmp name (b'.' ∷ b'.' ∷ []))
    then (s.nodes d).parent
    else first_named s.nodes name (kids d)

pub find_entry-lookup :
    (live : ℕ → Bool) (kids : ℕ → List ℕ) (s : Memfs) (rounds d : ℕ) (name : List ℕ)
    → IsTree live kids s
    → live d ≡ true
    → (s.nodes d).is_dir ≡ true
    → length (kids d) < rounds
    → find_entry rounds s d name ≡ some (lookup kids s d name)
unfolding find_entry
find_entry-lookup live kids s rounds d name ok l dir h =
    let inner = find_child-first rounds s (s.nodes d).clist name (kids d) (ok.chain d l dir) h in
    elim (Bool-cases (says_equal (strcmp name (b'.' ∷ [])))) [
      | inl e ↦ rw e
      | inr e ↦ elim (Bool-cases (says_equal (strcmp name (b'.' ∷ b'.' ∷ [])))) [
        | inl e' ↦ rw (e, e')
        | inr e' ↦ rw (e, e') inner
      ]
    ]

pub Has-first :
    (nodes : ℕ → MemNode) (name xs : List ℕ)
    → (first_named nodes name xs ≡ 0) ⊎ Has (first_named nodes name xs) xs
Has-first nodes name [] = inl refl
Has-first nodes name (x ∷ xs) = elim (Bool-cases (says_equal (strcasecmp (nodes x).name name))) [
  | inl e ↦ rw e (inr (Has.here refl))
  | inr e ↦ elim (Has-first nodes name xs) [
    | inl z ↦ rw e (inl z)
    | inr z ↦ rw e (inr (Has.there z))
  ]
]

-- A name stands for a node of the tree.
pub lookup_live :
    (live : ℕ → Bool) (kids : ℕ → List ℕ) (s : Memfs) (d : ℕ) (name : List ℕ)
    → IsTree live kids s
    → live d ≡ true
    → lookup kids s d name ≢ 0
    → live (lookup kids s d name) ≡ true
lookup_live live kids s d name ok l ne = elim (Bool-cases (says_equal (strcmp name (b'.' ∷ [])))) [
  | inl e ↦ rw e l
  | inr e ↦ elim (Bool-cases (says_equal (strcmp name (b'.' ∷ b'.' ∷ [])))) [
    | inl e' ↦ elim (ok.parent_live d l) [
      | inl top ↦ absurd (ne (rw (e, e') top))
      | inr up ↦ rw (e, e') up.0
    ]
    | inr e' ↦ elim (Has-first s.nodes name (kids d)) [
      | inl z ↦ absurd (ne (rw (e, e') z))
      | inr z ↦ rw (e, e') (ok.kid_live d _ z)
    ]
  ]
]

-- Following names from a directory, one after the other.
pub data Leads (kids : ℕ → List ℕ) (s : Memfs) : ℕ → List (List ℕ) → ℕ → Type 0 where
  stay : {n : ℕ} → Leads kids s n [] n
  step :
      {n t : ℕ} {name : List ℕ} {names : List (List ℕ)}
      → (s.nodes n).is_dir ≡ true
      → lookup kids s n name ≢ 0
      → Leads kids s (lookup kids s n name) names t
      → Leads kids s n (name ∷ names) t
