-- ===== src/Memtree/Remove.antt =====
-- `remove` of src/fsmem.c on a tree.
use boss.Prelude.{
  List-cases, ℕ, zero, suc, ◌<◌, ◌≡◌, ◌≢◌, refl, ◌∙◌, sym, ap, Bool, true, false, inl, inr,
  Bool-cases, none, some, List, [], ◌∷◌, length, ◌==◌, arith, pos, negsuc, ◌&&◌, not,
}
use boss.Memtree.{MemNode, Memfs, unlink, remove, fail, exists, busy}
use boss.Memtree.Chains.{Has, Nodup, Chain, last_of, Chain-full}
use boss.Memtree.Tree.{IsTree, IsLocal}
use boss.Memtree.Without.{Has-tail}
use boss.Memtree.Unlink.{unlink_first, unlink_next, with_head}
use boss.Memtree.Unlinked.{
  IsUnlinked, live_without, kids_without, unlinked-IsTree, unlinked-IsLocal,
}
use boss.Memtree.Taken.{first-IsUnlinked, later-IsUnlinked}

Chain-head :
    (nodes : ℕ → MemNode) (p x y : ℕ) (xs : List ℕ)
    → x ≡ y
    → Chain nodes p (x ∷ xs)
    → Chain nodes p (y ∷ xs)
Chain-head nodes p x y xs e c = rw (sym e) c

some_rounds : (k r : ℕ) → k < r → (f : ℕ) × (r ≡ suc f)
some_rounds k zero h = absurd (omega arith)
some_rounds k (suc f) h = (f, refl)

-- The part of `remove` behind the loop.
remove_end :
    (rounds dummy n : ℕ) (s t : Memfs) (head : ℕ)
    → ((s.nodes n).is_dir && not ((s.nodes n).clist == 0)) ≡ false
    → (s.nodes n).parent ≢ 0
    → unlink rounds dummy n (s.nodes n).parent none (s.nodes (s.nodes n).parent).clist s
      ≡ some (true, head, t)
    → remove rounds dummy n s ≡ some (pos 0, with_head (s.nodes n).parent head t)
unfolding remove
remove_end rounds dummy n s t head e p0 u =
    let some_node : ((s.nodes n).parent == 0) ≡ false = ground (arith, p0) in
    rw (e, some_node, u, remove) refl

module _ (live : ℕ → Bool) (kids : ℕ → List ℕ) (s : Memfs) (ok : IsTree live kids s)
    (n dummy rounds : ℕ) (nl : live n ≡ true) where
  -- A node with children is a directory.
  parent_dir : (k : ℕ) → Has k (kids n) → (s.nodes n).is_dir ≡ true
  parent_dir k i = elim (ok.parent_live k (ok.kid_live n k i)) [
    | inl z ↦ absurd (
        let c = ok.not_null in
        let c' : live 0 ≡ true = ap live (sym z ∙ ok.kid_parent n k i) ∙ nl in cc)
    | inr (a, b, j) ↦ ap (λ p. (s.nodes p).is_dir) (sym (ok.kid_parent n k i)) ∙ b
  ]

  dir_empty : kids n ≡ [] → ((s.nodes n).is_dir && not ((s.nodes n).clist == 0)) ≡ false
  dir_empty e = elim (Bool-cases (s.nodes n).is_dir) [
    | inl dir ↦
        let c = ok.chain n nl dir in
        let none_in : (s.nodes n).clist ≡ 0 = rw e at c in
        let z : ((s.nodes n).clist == 0) ≡ true = ground (arith, none_in) in rw (dir, z) refl
    | inr file ↦ rw file refl
  ]

  refused_full : kids n ≢ [] → remove rounds dummy n s ≡ some (negsuc 0, fail exists s)
  unfolding remove
  refused_full full = elim (List-cases (kids n)) [
    | inl e ↦ absurd (full e)
    | inr (k, ks, e) ↦
        let dir = parent_dir k (rw e (Has.here refl)) in
        let c = Chain-full s.nodes (s.nodes n).clist k ks (kids n) e (ok.chain n nl dir) in
        let some_kid : ((s.nodes n).clist == 0) ≡ false = ground (arith, c) in
        rw (dir, some_kid, remove) refl
  ]

  refused_top :
      kids n ≡ [] → (s.nodes n).parent ≡ 0 → remove rounds dummy n s ≡ some (negsuc 0, fail busy s)
  unfolding remove
  refused_top e top =
      let z : ((s.nodes n).parent == 0) ≡ true = ground (arith, top) in
      rw (dir_empty e, z, remove) refl

  abbrev par : ℕ
  par = (s.nodes n).parent

  tail_par :
      (x : ℕ) (xs : List ℕ)
      → live par ≡ true
      → (s.nodes par).is_dir ≡ true
      → kids par ≡ x ∷ xs
      → (s.nodes par).ctail ≡ last_of (x ∷ xs)
  tail_par x xs pl dir e = elim (ok.tail par pl dir) [
    | inl z ↦ absurd cc
    | inr t ↦ t ∙ ap last_of e
  ]

  taken_first :
      (fuel : ℕ) (xs : List ℕ)
      → rounds ≡ suc fuel
      → kids n ≡ []
      → par ≢ 0
      → live par ≡ true
      → (s.nodes par).is_dir ≡ true
      → kids par ≡ n ∷ xs
      → Chain s.nodes (s.nodes par).clist (n ∷ xs)
      → Nodup (n ∷ xs)
      → (s' : Memfs) × (remove rounds dummy n s ≡ some (pos 0, s')) × IsUnlinked kids n par s s'
  taken_first fuel xs r childless p0 pl dir e (a, b, c) d =
      let loop =
        ap (λ f. unlink f dummy n par none (s.nodes par).clist s) r
        ∙ ap (λ y. unlink (suc fuel) dummy n par none y s) a
        ∙ unlink_first fuel dummy n par s b in
      (
        _,
        remove_end rounds dummy n s _ _ (dir_empty childless) p0 loop,
        first-IsUnlinked kids n par dummy s xs e d c (tail_par n xs pl dir e),
      )

  taken_later :
      (fuel x : ℕ) (xs : List ℕ)
      → rounds ≡ suc fuel
      → kids n ≡ []
      → par ≢ 0
      → live par ≡ true
      → (s.nodes par).is_dir ≡ true
      → kids par ≡ x ∷ xs
      → x ≢ n
      → Has n xs
      → Chain s.nodes (s.nodes par).clist (x ∷ xs)
      → Nodup (x ∷ xs)
      → length (x ∷ xs) < rounds
      → (s' : Memfs) × (remove rounds dummy n s ≡ some (pos 0, s')) × IsUnlinked kids n par s s'
  taken_later fuel x xs r childless p0 pl dir e ne i (a, b, c) d enough =
      let loop =
        ap (λ f. unlink f dummy n par none (s.nodes par).clist s) r
        ∙ ap (λ y. unlink (suc fuel) dummy n par none y s) a
        ∙ unlink_next fuel dummy n par x s xs b ne c i (omega arith) in
      (
        _,
        remove_end rounds dummy n s _ _ (dir_empty childless) p0 loop,
        later-IsUnlinked kids n par x s xs e ne i d (refl, b, c) (tail_par x xs pl dir e),
      )

  taken :
      (fuel : ℕ) (xs : List ℕ)
      → rounds ≡ suc fuel
      → kids n ≡ []
      → par ≢ 0
      → live par ≡ true
      → (s.nodes par).is_dir ≡ true
      → kids par ≡ xs
      → Chain s.nodes (s.nodes par).clist xs
      → Nodup xs
      → Has n xs
      → length xs < rounds
      → (s' : Memfs) × (remove rounds dummy n s ≡ some (pos 0, s')) × IsUnlinked kids n par s s'
  taken fuel [] r childless p0 pl dir e c d i enough = elim i [ ]
  taken fuel (x ∷ xs) r childless p0 pl dir e c d i enough = elim (Bool-cases (x == n)) [
    | inl q ↦
        let at : x ≡ n = ground arith in
        taken_first fuel xs r childless p0 pl dir (e ∙ ap (λ y. y ∷ xs) at)
          (Chain-head s.nodes (s.nodes par).clist x n xs at c) (rw (sym at) d)
    | inr q ↦
        let ne : x ≢ n = ground arith in
        taken_later fuel x xs r childless p0 pl dir e ne (Has-tail n x xs ne i) c d enough
  ]

  -- `remove` of a node with children is refused, with EEXIST, and of the root, with EBUSY. Any other
  -- node is taken out: the nodes stay a tree, in which the directory has its other children in the
  -- same order, every other directory has what it had, and no name and no handle changes.
  pub remove_lem :
      ((x : ℕ) → length (kids x) < rounds)
      → (kids n ≢ [] → remove rounds dummy n s ≡ some (negsuc 0, fail exists s))
        × (kids n ≡ [] → par ≡ 0 → remove rounds dummy n s ≡ some (negsuc 0, fail busy s))
        × (kids n ≡ []
            → par ≢ 0
            → (s' : Memfs) × (remove rounds dummy n s ≡ some (pos 0, s'))
              × IsTree (live_without n live) (kids_without n par kids) s'
              × (IsLocal live s → IsLocal (live_without n live) s')
              × ((k : ℕ) → (s'.nodes k).name ≡ (s.nodes k).name)
              × (s'.handles ≡ s.handles))
  remove_lem enough = (
    refused_full,
    refused_top,
    λ childless p0. elim (ok.parent_live n nl) [
      | inl top ↦ absurd (p0 top)
      | inr (pl, dir, i) ↦
          let (fuel, r) = some_rounds _ rounds (enough par) in
          let (s', e, cut) =
            taken fuel (kids par) r childless p0 pl dir refl (ok.chain par pl dir) (ok.apart par) i
              (enough par) in
          (
            s',
            e,
            unlinked-IsTree live kids s s' n par ok cut nl refl p0 childless,
            unlinked-IsLocal live kids s s' n par ok cut nl refl p0 childless,
            cut.same_name,
            cut.same_handles,
          )
    ],
  )
