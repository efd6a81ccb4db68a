-- ===== src/Memtree/Unlinked.antt =====
-- The tree after `remove` of src/fsmem.c has taken a node out.
use boss.Prelude.{
  ℕ, ◌≡◌, ◌≢◌, ◌∙◌, sym, ap, Bool, true, false, inl, inr, ◌⊎◌, Bool-cases, List, [], ◌==◌, arith,
  update,
}
use boss.Memtree.{Memfs, mounted_on}
use boss.Memtree.Chains.{Has, Chain, last_of, Chain-same}
use boss.Memtree.Tree.{IsTree, IsLocal}
use boss.Memtree.Linking.{update_here, update_other}
use boss.Memtree.Without.{without, Has-eq, Has-without, without-Has, Nodup-without, not_without}

-- What taking `n` out of the children of `par` changes.
pub record IsUnlinked (kids : ℕ → List ℕ) (n par : ℕ) (s s' : Memfs) : Type 0 where
  pub same_root : s'.rootdir ≡ s.rootdir
  pub same_handles : s'.handles ≡ s.handles
  pub same_name : (k : ℕ) → (s'.nodes k).name ≡ (s.nodes k).name
  pub same_is_dir : (k : ℕ) → (s'.nodes k).is_dir ≡ (s.nodes k).is_dir
  pub same_parent : (k : ℕ) → (s'.nodes k).parent ≡ (s.nodes k).parent
  pub same_fsnode : (k : ℕ) → (s'.nodes k).fsnode ≡ (s.nodes k).fsnode
  pub same_clist : (k : ℕ) → k ≢ par → (s'.nodes k).clist ≡ (s.nodes k).clist
  pub same_ctail : (k : ℕ) → k ≢ par → (s'.nodes k).ctail ≡ (s.nodes k).ctail
  pub same_next : (k : ℕ) → ¬ Has k (kids par) → (s'.nodes k).next ≡ (s.nodes k).next
  pub cut_chain : Chain s'.nodes (s'.nodes par).clist (without n (kids par))
  pub cut_tail :
      (without n (kids par) ≡ []) ⊎ ((s'.nodes par).ctail ≡ last_of (without n (kids par)))

-- The tree without `n`.
abbrev pub live_without : ℕ → (ℕ → Bool) → ℕ → Bool
live_without n live = update live n false

abbrev pub kids_without : ℕ → ℕ → (ℕ → List ℕ) → ℕ → List ℕ
kids_without n par kids = update kids par (without n (kids par))

module _ (live : ℕ → Bool) (kids : ℕ → List ℕ) (s s' : Memfs) (n par : ℕ) (ok : IsTree live kids s)
    (cut : IsUnlinked kids n par s s') (nl : live n ≡ true) (pl : (s.nodes n).parent ≡ par)
    (p0 : par ≢ 0) (childless : kids n ≡ []) where
  abbrev live' : ℕ → Bool
  live' = live_without n live

  abbrev kids' : ℕ → List ℕ
  kids' = kids_without n par kids

  kids_par : kids' par ≡ without n (kids par)
  kids_par = update_here kids par (without n (kids par))

  kids_far : (x : ℕ) → x ≢ par → kids' x ≡ kids x
  kids_far x ne = update_other kids par (without n (kids par)) x ne

  not_n : (x : ℕ) → live' x ≡ true → x ≢ n
  not_n x l e =
      let c : live' n ≡ true = ap live' (sym e) ∙ l in let c' = update_here live n false in cc

  was : (x : ℕ) → live' x ≡ true → live x ≡ true
  was x l = sym (update_other live n false x (not_n x l)) ∙ l

  now : (x : ℕ) → x ≢ n → live x ≡ true → live' x ≡ true
  now x ne l = update_other live n false x ne ∙ l

  Has-list : (k : ℕ) (xs ys : List ℕ) → xs ≡ ys → Has k xs → Has k ys
  Has-list k xs ys e i = rw (sym e) i

  -- A directory is `par` or has the children that it had.
  near : (x : ℕ) → ((x ≡ par) × (kids' x ≡ without n (kids x))) ⊎ ((x ≢ par) × (kids' x ≡ kids x))
  near x = elim (Bool-cases (x == par)) [
    | inl e ↦
        let at : x ≡ par = ground arith in
        inl (at, ap kids' at ∙ kids_par ∙ ap (λ y. without n (kids y)) (sym at))
    | inr e ↦ let ne : x ≢ par = ground arith in inr (ne, kids_far x ne)
  ]

  Has-cut : (x k : ℕ) → Has k (kids' x) → Has k (kids x)
  Has-cut x k i = elim (near x) [
    | inl (e, q) ↦ Has-without k n (kids x) (Has-list k (kids' x) (without n (kids x)) q i)
    | inr (ne, q) ↦ Has-list k (kids' x) (kids x) q i
  ]

  cut_not : (x : ℕ) → ¬ Has n (kids' x)
  cut_not x i = elim (near x) [
    | inl (e, q) ↦
        not_without n (kids x) (ok.apart x) (Has-list n (kids' x) (without n (kids x)) q i)
    | inr (ne, q) ↦ ne (sym (ok.kid_parent x n (Has-list n (kids' x) (kids x) q i)) ∙ pl)
  ]

  -- Another directory has none of the children of `par`.
  next_far : (x k : ℕ) → x ≢ par → Has k (kids x) → (s'.nodes k).next ≡ (s.nodes k).next
  next_far x k ne i = cut.same_next k (λ j. ne (sym (ok.kid_parent x k i) ∙ ok.kid_parent par k j))

  root_not_n : s.rootdir ≢ n
  root_not_n e = p0 (sym pl ∙ ap (λ x. (s.nodes x).parent) (sym e) ∙ ok.root_top)

  dir_was : (x : ℕ) → (s'.nodes x).is_dir ≡ true → (s.nodes x).is_dir ≡ true
  dir_was x e = sym (cut.same_is_dir x) ∙ e

  chains :
      (x : ℕ)
      → live' x ≡ true
      → (s'.nodes x).is_dir ≡ true
      → Chain s'.nodes (s'.nodes x).clist (kids' x)
  chains x l e = elim (near x) [
    | inl (at, q) ↦ rw (q, at) cut.cut_chain
    | inr (ne, q) ↦
        rw (q, cut.same_clist x ne)
          (Chain-same s.nodes s'.nodes (s.nodes x).clist (kids x) (λ k i. next_far x k ne i)
            (ok.chain x (was x l) (dir_was x e)))
  ]

  tails :
      (x : ℕ)
      → live' x ≡ true
      → (s'.nodes x).is_dir ≡ true
      → (kids' x ≡ []) ⊎ ((s'.nodes x).ctail ≡ last_of (kids' x))
  tails x l e = elim (near x) [
    | inl (at, q) ↦ rw (q, at) cut.cut_tail
    | inr (ne, q) ↦ rw (q, cut.same_ctail x ne) (ok.tail x (was x l) (dir_was x e))
  ]

  parents :
      (k : ℕ)
      → live' k ≡ true
      → ((s'.nodes k).parent ≡ 0)
        ⊎ ((live' (s'.nodes k).parent ≡ true)
            × ((s'.nodes (s'.nodes k).parent).is_dir ≡ true)
            × Has k (kids' (s'.nodes k).parent))
  parents k l = elim (ok.parent_live k (was k l)) [
    | inl z ↦ inl (cut.same_parent k ∙ z)
    | inr (a, b, i) ↦
        let up : ℕ = (s.nodes k).parent in
        let kid : Has k (kids up) = i in
        let up_stays : up ≢ n =
          λ e. elim (Has-list k (kids up) [] (ap kids e ∙ childless) kid) [ ] in
        let there' : Has k (kids' up) = elim (near up) [
          | inl (e, q) ↦
              Has-list k (without n (kids up)) (kids' up) (sym q)
                (without-Has k n (kids up) (not_n k l) kid)
          | inr (ne, q) ↦ Has-list k (kids up) (kids' up) (sym q) kid
        ] in
        inr (rw (cut.same_parent k) (now up up_stays a, cut.same_is_dir up ∙ b, there'))
  ]

  pub unlinked-IsTree : IsTree live' kids' s'
  unlinked-IsTree = record {
    not_null = elim (Bool-cases (0 == n)) [
      | inl e ↦ let at : 0 ≡ n = ground arith in ap live' at ∙ update_here live n false
      | inr e ↦ update_other live n false 0 (ground arith) ∙ ok.not_null
    ];
    root_live = ap live' cut.same_root ∙ now s.rootdir root_not_n ok.root_live;
    root_dir = rw cut.same_root (cut.same_is_dir s.rootdir ∙ ok.root_dir);
    root_top = rw cut.same_root (cut.same_parent s.rootdir ∙ ok.root_top);
    chain = chains;
    tail = tails;
    apart = λ x. elim (near x) [
      | inl (e, q) ↦ rw q (Nodup-without n (kids x) (ok.apart x))
      | inr (ne, q) ↦ rw q (ok.apart x)
    ];
    kid_live = λ x k i.
        now k (λ e. cut_not x (Has-eq k n (kids' x) e i)) (ok.kid_live x k (Has-cut x k i));
    kid_parent = λ x k i. cut.same_parent k ∙ ok.kid_parent x k (Has-cut x k i);
    parent_live = parents;
  }

  pub unlinked-IsLocal : IsLocal live s → IsLocal live' s'
  unfolding mounted_on
  unlinked-IsLocal loc = record {
    local = λ k l. rw (cut.same_fsnode k, cut.same_handles) (loc.local k (was k l));
  }
