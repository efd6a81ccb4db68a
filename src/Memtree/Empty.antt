-- ===== src/Memtree/Empty.antt =====
-- The file system that `fsmem_create` of src/fsmem.c makes.
use boss.Prelude.{
  ℕ, ◌≡◌, ◌≢◌, refl, ◌∙◌, sym, ap, Bool, true, false, inl, inr, Bool-cases, none, some, List, [],
  ◌==◌, arith, update,
}
use boss.Memtree.{MemNode, Memfs, fsmem_create, alloc_node, set_node, mounted_on, dev_memdisk}
use boss.Memtree.Tree.{IsTree, IsLocal}
use boss.Memtree.Linking.{update_here, update_other}

abbrev pub only : ℕ → ℕ → Bool
only root = update (λ n. false) root true

abbrev pub no_kids : ℕ → List ℕ
no_kids d = []

-- Before `fsmem_create`.
abbrev pub root_only : ℕ → Memfs → Memfs
root_only root s = set_node root (alloc_node true) (record s { rootdir = root })

only_root : (root n : ℕ) → only root n ≡ true → n ≡ root
only_root root n h = elim (Bool-cases (n == root)) [
  | inl e ↦ ground arith
  | inr e ↦ let c : false ≡ true = rw e at h in absurd cc
]

module _ (root : ℕ) (s : Memfs) (not_null : root ≢ 0) where
  at_root : (root_only root s).nodes root ≡ alloc_node true
  at_root = update_here s.nodes root (alloc_node true)

  at_live : (n : ℕ) → only root n ≡ true → (root_only root s).nodes n ≡ alloc_node true
  at_live n l = rw (only_root root n l) at_root

  pub root_only-IsTree : IsTree (only root) no_kids (root_only root s)
  unfolding alloc_node
  root_only-IsTree = record {
    not_null = update_other (λ n. false) root true 0 (λ e. not_null (sym e));
    root_live = update_here (λ n. false) root true;
    root_dir = ap (λ x. x.is_dir) at_root;
    root_top = ap (λ x. x.parent) at_root;
    chain = λ d l e. ap (λ x. x.clist) (at_live d l);
    tail = λ d l e. inl refl;
    apart = λ d. tt;
    kid_live = λ d k i. elim i [ ];
    kid_parent = λ d k i. elim i [ ];
    parent_live = λ k l. inl (ap (λ x. x.parent) (at_live k l));
  }

  unmounted :
      (n : ℕ) (node : MemNode)
      → (root_only root s).nodes n ≡ node
      → node.fsnode ≡ 0
      → mounted_on (root_only root s) n ≡ some 0
  unfolding mounted_on
  unmounted n node e z =
      let unset : (((root_only root s).nodes n).fsnode == 0) ≡ true =
        ground (arith, ap (λ (x : MemNode). x.fsnode) e ∙ z) in
      rw unset refl

  pub root_only-IsLocal : IsLocal (only root) (root_only root s)
  unfolding alloc_node
  root_only-IsLocal = record { local = λ n l. unmounted n (alloc_node true) (at_live n l) refl }

-- A new file system is made for the memory device alone, and is a tree of the root directory, in
-- which nothing is mounted.
pub fsmem_create-IsTree :
    (dev root : ℕ) (s : Memfs)
    → root ≢ 0
    → ((dev ≢ dev_memdisk → fsmem_create dev root s ≡ none)
        × (dev ≡ dev_memdisk
            → (s' : Memfs) × (fsmem_create dev root s ≡ some s')
              × IsTree (only root) no_kids s'
              × IsLocal (only root) s'))
unfolding fsmem_create
fsmem_create-IsTree dev root s ne = (
  λ far.
      let other : (dev == dev_memdisk) ≡ false = ground (arith, far) in
      rw (other, fsmem_create) refl,
  λ e.
      let this : (dev == dev_memdisk) ≡ true = ground (arith, e) in
      (
        root_only root s,
        rw (this, fsmem_create) refl,
        root_only-IsTree root s ne,
        root_only-IsLocal root s ne,
      ),
)
