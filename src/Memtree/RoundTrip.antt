-- ===== src/Memtree/RoundTrip.antt =====
-- A path that `open` of src/fsmem.c creates a node for, opened again.
use boss.Prelude.{
  ℕ, suc, ◌<◌, ◌≡◌, ◌≢◌, refl, ◌∙◌, Bool, true, false, Bool-cases, inl, inr, some, Option, List, [],
  ◌∷◌, ◌++◌, length, length-append, ◌==◌, if◌then◌else◌, arith,
}
use boss.Text.{strcmp}
use boss.Text.Compare.{IsText}
use boss.Memtree.{Memfs, says_equal, error, exists, found, open_from, finish_open, create_fsnode}
use boss.Memtree.Tree.{IsTree, IsLocal, lookup, Leads}
use boss.Memtree.Walk.{AllShort, path_of, open_from-Leads, open_from-missing}
use boss.Memtree.Fresh.{created, created_root, is_dir_other}
use boss.Memtree.Create.{live_with, kids_with, created-IsTree, apart}
use boss.Memtree.Local.{created-IsLocal}
use boss.Memtree.Kept.{Leads-kept, lookup_new, Leads-snoc, Leads-live}

Leads-same :
    (kids : ℕ → List ℕ) (s : Memfs) (x y t : ℕ) (names : List (List ℕ))
    → x ≡ y
    → Leads kids s y names t
    → Leads kids s x names t
Leads-same kids s x y t names e leads = rw e leads

module _ (live : ℕ → Bool) (kids : ℕ → List ℕ) (s : Memfs) (ok : IsTree live kids s)
    (here : IsLocal live s) (rounds : ℕ) (enough : (x : ℕ) → suc (length (kids x)) < rounds)
    (d n h : ℕ) (dir : Bool) (names : List (List ℕ)) (name : List ℕ)
    (short : AllShort (names ++ name ∷ [])) (leads : Leads kids s s.rootdir names d)
    (dd : (s.nodes d).is_dir ≡ true) (free : lookup kids s d name ≡ 0)
    (up : says_equal (strcmp name (b'.' ∷ b'.' ∷ [])) ≡ false) (text : IsText name) (n0 : n ≢ 0)
    (nl : live n ≡ false) where
  dl : live d ≡ true
  dl = Leads-live live kids s s.rootdir d names ok ok.root_live leads

  enough_then : (x : ℕ) → length (kids_with d n kids x) < rounds
  enough_then x = elim (Bool-cases (x == n)) [
    | inl e ↦ rw e (let z = enough x in omega arith)
    | inr e ↦ elim (Bool-cases (x == d)) [
      | inl f ↦ rw (e, f) (omega (arith, enough d, length-append (kids d) (n ∷ [])))
      | inr f ↦ rw (e, f) (omega (arith, enough x))
    ]
  ]

  -- In a tree in which no node's first handle has been closed or has another file system mounted on it,
  -- creating a file or directory at the end of a path whose directories exist gives the handle, keeps
  -- the nodes such a tree, in which the new node is the last child of its directory, and in the state
  -- after it opening the path finds the new node, or fails with EEXIST if that is to be new.
  pub open_from-finish_open :
      (excl create' excl' : Bool) (cwd cwd' : Option ℕ)
      → (s' : Memfs) × (finish_open dir
            (some n)
            (some h)
            true
            (open_from rounds true excl cwd (b'/' ∷ path_of (names ++ name ∷ [])) s)
            s
          ≡ some (h, s'))
        × (open_from rounds create' excl' cwd' (b'/' ∷ path_of (names ++ name ∷ [])) s'
            ≡ (if excl' then error exists else found n))
        × IsTree (live_with n live) (kids_with d n kids) s'
        × IsLocal (live_with n live) s'
  unfolding finish_open create_fsnode
  open_from-finish_open excl create' excl' cwd cwd' =
      let s' = created d n h dir name s in
      let live' = live_with n live in
      let kids' = kids_with d n kids in
      let tree : IsTree live' kids' s' = created-IsTree live kids s ok d n h dir name dl dd n0 nl in
      let local : IsLocal live' s' = created-IsLocal d n h dir name s live nl here in
      let old : (x : ℕ) → live x ≡ true → x ≢ n = apart live kids s ok d n h dir name dl dd n0 nl in
      let before : (x : ℕ) → length (kids x) < rounds = λ x. omega (arith, enough x) in
      let first =
        open_from-missing live kids s rounds ok here before true excl cwd d names name [] short
          leads dd free in
      let kept =
        Leads-kept live kids s ok d n h dir name dl dd n0 nl s.rootdir d names ok.root_live leads in
      let root = created_root d n h dir name s in
      let leads' =
        Leads-snoc kids' s' s.rootdir d n names name kept
          (is_dir_other d n h dir name s d (old d dl) ∙ dd)
          (lookup_new live kids s ok d n h dir name dl dd n0 nl up text free) n0 in
      let again =
        open_from-Leads live' kids' s' rounds tree local enough_then create' excl' cwd' n
          (names ++ name ∷ []) short
          (Leads-same kids' s' s'.rootdir s.rootdir n (names ++ name ∷ []) root leads') in
      (s', rw first refl, again, tree, local)
