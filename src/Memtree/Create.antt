-- ===== src/Memtree/Create.antt =====
-- `open` of src/fsmem.c where it creates a node: the nodes stay a tree, and the path then leads to
-- the new node.
use boss.Prelude.{
  List-cases, ℕ, ◌≡◌, ◌≢◌, refl, ◌∙◌, sym, ap, Bool, true, false, inl, inr, ◌⊎◌, Bool-cases, List,
  [], ◌∷◌, ◌++◌, ◌==◌, arith, update,
}
use boss.Memtree.{Memfs}
use boss.Memtree.Chains.{Has, Chain, last_of, Chain-same, Chain-append, Has-last, Chain-full}
use boss.Memtree.Snoc.{Has-same, Has-new, Has-old, Has-snoc, Nodup-snoc, last-snoc}
use boss.Memtree.Tree.{IsTree}
use boss.Memtree.Linking.{update_here, update_other}
use boss.Memtree.Fresh.{
  created, created_root, is_dir_other, parent_new, parent_old, clist_new, clist_old, ctail_old,
  ctail_here, clist_first, clist_more, next_first, next_other, next_tail, next_new,
}

-- The tree with the new node as the last child of `d`.
abbrev pub live_with : ℕ → (ℕ → Bool) → ℕ → Bool
live_with n live = update live n true

abbrev pub kids_with : ℕ → ℕ → (ℕ → List ℕ) → ℕ → List ℕ
kids_with d n kids = update (update kids d (kids d ++ n ∷ [])) n []

module _ (live : ℕ → Bool) (kids : ℕ → List ℕ) (s : Memfs) (ok : IsTree live kids s) (d n h : ℕ)
    (dir : Bool) (name : List ℕ) (dl : live d ≡ true) (dd : (s.nodes d).is_dir ≡ true) (n0 : n ≢ 0)
    (nl : live n ≡ false) where
  pub apart : (k : ℕ) → live k ≡ true → k ≢ n
  apart k l e = let c : live n ≡ true = rw (sym e) l in cc

  new : n ≢ d
  new e = apart d dl (sym e)

  abbrev s' : Memfs
  s' = created d n h dir name s

  abbrev kids' : ℕ → List ℕ
  kids' = kids_with d n kids

  kids_n : kids' n ≡ []
  kids_n = update_here (update kids d (kids d ++ n ∷ [])) n []

  pub kids_d : kids' d ≡ kids d ++ n ∷ []
  kids_d =
      update_other (update kids d (kids d ++ n ∷ [])) n [] d (λ e. new (sym e))
      ∙ update_here kids d (kids d ++ n ∷ [])

  pub kids_other : (x : ℕ) → x ≢ n → x ≢ d → kids' x ≡ kids x
  kids_other x a b =
      update_other (update kids d (kids d ++ n ∷ [])) n [] x a ∙ update_other kids d _ x b

  -- The three kinds of nodes of the new tree.
  which : (x : ℕ) → (x ≡ n) ⊎ ((x ≡ d) ⊎ ((x ≢ n) × (x ≢ d)))
  which x = elim (Bool-cases (x == n)) [
    | inl e ↦ inl (ground arith)
    | inr e ↦ elim (Bool-cases (x == d)) [
      | inl f ↦ inr (inl (ground arith))
      | inr f ↦ inr (inr (ground arith, ground arith))
    ]
  ]

  was_live : (x : ℕ) → x ≢ n → live_with n live x ≡ true → live x ≡ true
  was_live x a l = sym (update_other live n true x a) ∙ l

  empty_d : kids d ≡ [] → (s.nodes d).clist ≡ 0
  empty_d e = let c = ok.chain d dl dd in rw e at c

  full_d : (x : ℕ) (xs : List ℕ) → kids d ≡ x ∷ xs → (s.nodes d).clist ≢ 0
  full_d x xs e z = Chain-full s.nodes (s.nodes d).clist x xs (kids d) e (ok.chain d dl dd) z

  -- The tail of `d` is its last child when there is one.
  tail_d : (x : ℕ) (xs : List ℕ) → kids d ≡ x ∷ xs → (s.nodes d).ctail ≡ last_of (x ∷ xs)
  tail_d x xs e = elim (ok.tail d dl dd) [ inl z ↦ absurd cc | inr t ↦ t ∙ ap last_of e ]

  tail_kid : (x : ℕ) (xs : List ℕ) → kids d ≡ x ∷ xs → Has (s.nodes d).ctail (kids d)
  tail_kid x xs e = rw (tail_d x xs e, e) (Has-last x xs)

  tail_not_new : (s.nodes d).clist ≢ 0 → n ≢ (s.nodes d).ctail
  tail_not_new e t = elim (List-cases (kids d)) [
    | inl z ↦ e (empty_d z)
    | inr (x, xs, q) ↦ apart (s.nodes d).ctail (ok.kid_live d _ (tail_kid x xs q)) (sym t)
  ]

  linked_d : Chain s'.nodes (s'.nodes d).clist (kids d ++ n ∷ [])
  linked_d = elim (List-cases (kids d)) [
    | inl z ↦
        rw (z, clist_first d n h dir name s new (empty_d z))
          (refl, n0, next_new d n h dir name s new tail_not_new)
    | inr (x, xs, q) ↦
        let full = full_d x xs q in
        rw (q, clist_more d n h dir name s new full)
          (Chain-append s.nodes s'.nodes (s.nodes d).clist x n xs (rw q at (ok.chain d dl dd))
            (rw q at (ok.apart d)) n0
            (λ k i far.
              next_other d n h dir name s new k full (apart k (ok.kid_live d k (rw q i)))
                (λ t. far (t ∙ tail_d x xs q)))
            (rw (sym (tail_d x xs q)) (next_tail d n h dir name s new full))
            (next_new d n h dir name s new tail_not_new))
  ]

  -- The children of another directory are linked as before.
  next_same : (x k : ℕ) → x ≢ d → Has k (kids x) → (s'.nodes k).next ≡ (s.nodes k).next
  next_same x k far i =
      let ne = apart k (ok.kid_live x k i) in
      elim (List-cases (kids d)) [
        | inl z ↦ next_first d n h dir name s new k (empty_d z) ne
        | inr (y, ys, q) ↦
            next_other d n h dir name s new k (full_d y ys q) ne
              (λ t. far (sym (ok.kid_parent x k i) ∙ ok.kid_parent d k (rw t (tail_kid y ys q))))
      ]

  dir_of : (x : ℕ) → x ≢ n → (s'.nodes x).is_dir ≡ true → (s.nodes x).is_dir ≡ true
  dir_of x ne e = sym (is_dir_other d n h dir name s x ne) ∙ e

  still : (x : ℕ) → live x ≡ true → live_with n live x ≡ true
  still x l = update_other live n true x (apart x l) ∙ l

  same_root : s'.rootdir ≡ s.rootdir
  same_root = created_root d n h dir name s

  root_old : s.rootdir ≢ n
  root_old = apart s.rootdir ok.root_live

  kids_from : (x k : ℕ) → Has k (kids' x) → ((x ≡ d) × (k ≡ n)) ⊎ Has k (kids x)
  kids_from x k i = elim (which x) [
    | inl q ↦ elim (Has-same k (kids' x) [] (ap kids' q ∙ kids_n) i) [ ]
    | inr (inl q) ↦
        elim (Has-snoc k n (kids d)
          (Has-same k (kids' x) (kids d ++ n ∷ []) (ap kids' q ∙ kids_d) i)) [
            | inl j ↦ inr (rw q j)
            | inr e ↦ inl (q, e)
          ]
    | inr (inr (ne, far)) ↦ inr (rw (sym (kids_other x ne far)) i)
  ]

  still_kid : (x k : ℕ) → x ≢ n → Has k (kids x) → Has k (kids' x)
  still_kid x k ne i = elim (Bool-cases (x == d)) [
    | inl e ↦
        let at : x ≡ d = ground arith in
        Has-same k (kids d ++ n ∷ []) (kids' x) (sym kids_d ∙ ap kids' (sym at))
          (Has-old k n (kids d) (Has-same k (kids x) (kids d) (ap kids at) i))
    | inr e ↦ Has-same k (kids x) (kids' x) (sym (kids_other x ne (ground arith))) i
  ]

  parents :
      (k : ℕ)
      → live_with n live k ≡ true
      → ((s'.nodes k).parent ≡ 0)
        ⊎ ((live_with n live (s'.nodes k).parent ≡ true)
            × ((s'.nodes (s'.nodes k).parent).is_dir ≡ true)
            × Has k (kids' (s'.nodes k).parent))
  parents k l = elim (Bool-cases (k == n)) [
    | inl e ↦
        let at : k ≡ n = ground arith in
        inr (
          rw (at, parent_new d n h dir name s new)
            (
              still d dl,
              is_dir_other d n h dir name s d (λ e. new (sym e)) ∙ dd,
              Has-same n (kids d ++ n ∷ []) (kids' d) (sym kids_d) (Has-new n (kids d)),
            ))
    | inr e ↦
        let ne : k ≢ n = ground arith in
        let kept = parent_old d n h dir name s new k ne in
        elim (ok.parent_live k (was_live k ne l)) [
          | inl z ↦ inl (kept ∙ z)
          | inr (a, b, i) ↦ inr (
              rw kept (
                still _ a,
                is_dir_other d n h dir name s _ (apart _ a) ∙ b,
                still_kid _ k (apart _ a) i,
              ))
        ]
  ]

  -- A new node leaves a tree.
  pub created-IsTree : IsTree (live_with n live) kids' s'
  created-IsTree = record {
    not_null = update_other live n true 0 (λ e. n0 (sym e)) ∙ ok.not_null;
    root_live = rw same_root (still s.rootdir ok.root_live);
    root_dir = rw same_root (is_dir_other d n h dir name s s.rootdir root_old ∙ ok.root_dir);
    root_top = rw same_root (parent_old d n h dir name s new s.rootdir root_old ∙ ok.root_top);
    chain = λ x l e. elim (which x) [
      | inl q ↦ rw (q, kids_n, clist_new d n h dir name s new) refl
      | inr (inl q) ↦ rw (q, kids_d) linked_d
      | inr (inr (ne, far)) ↦
          rw (kids_other x ne far, clist_old d n h dir name s new x ne far)
            (Chain-same s.nodes s'.nodes (s.nodes x).clist (kids x) (λ k i. next_same x k far i)
              (ok.chain x (was_live x ne l) (dir_of x ne e)))
    ];
    tail = λ x l e. elim (which x) [
      | inl q ↦ inl (rw q kids_n)
      | inr (inl q) ↦
          inr (rw (q, kids_d, ctail_here d n h dir name s new) (sym (last-snoc n (kids d))))
      | inr (inr (ne, far)) ↦
          rw (kids_other x ne far, ctail_old d n h dir name s new x ne far)
            (ok.tail x (was_live x ne l) (dir_of x ne e))
    ];
    apart = λ x. elim (which x) [
      | inl q ↦ rw (q, kids_n) tt
      | inr (inl q) ↦
          rw (q, kids_d)
            (Nodup-snoc n (kids d) (ok.apart d) (λ i. apart n (ok.kid_live d n i) refl))
      | inr (inr (ne, far)) ↦ rw (kids_other x ne far) (ok.apart x)
    ];
    kid_live = λ x k i. elim (kids_from x k i) [
      | inl (a, e) ↦ rw e (update_here live n true)
      | inr j ↦ still k (ok.kid_live x k j)
    ];
    kid_parent = λ x k i. elim (kids_from x k i) [
      | inl (a, e) ↦ rw (e, a) (parent_new d n h dir name s new)
      | inr j ↦
          parent_old d n h dir name s new k (apart k (ok.kid_live x k j)) ∙ ok.kid_parent x k j
    ];
    parent_live = parents;
  }
