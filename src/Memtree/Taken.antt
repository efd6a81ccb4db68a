-- ===== src/Memtree/Taken.antt =====
-- What the loop of `remove` of src/fsmem.c leaves of a list of children.
use boss.Prelude.{
  ℕ, ◌≡◌, ◌≢◌, refl, ◌∙◌, sym, ap, true, inl, inr, ◌⊎◌, Bool-cases, List, [], ◌∷◌, ◌==◌, arith,
}
use boss.Memtree.{MemNode, Memfs}
use boss.Memtree.Chains.{Has, Nodup, Chain, last_of, Chain-same, Has-last}
use boss.Memtree.Linking.{update_here, update_other, update_field}
use boss.Memtree.Without.{
  without, before, Has-eq, Has-before, Chain-without, last-without, last-without-before,
}
use boss.Memtree.Unlink.{
  tail_moved, linked_past, tail_moved_kept, linked_past_kept, tail_moved_far, tail_moved_ctail,
  tail_moved_root, with_head,
}
use boss.Memtree.Unlinked.{IsUnlinked}

head_kept {ℓ} :
    {A : Type ℓ}
    → (f : MemNode → A) (par head k : ℕ) (s : Memfs)
    → ((x : MemNode) (a : ℕ) → f (record x { clist = a }) ≡ f x)
    → f ((with_head par head s).nodes k) ≡ f (s.nodes k)
head_kept f par head k s hl = update_field f s.nodes par _ k (hl (s.nodes par) head)

module _ (kids : ℕ → List ℕ) (n par dummy : ℕ) (s : Memfs) (xs : List ℕ) (first : kids par ≡ n ∷ xs)
    (d : Nodup (n ∷ xs)) (c : Chain s.nodes (s.nodes n).next xs)
    (t : (s.nodes par).ctail ≡ last_of (n ∷ xs)) where
  abbrev moved : Memfs
  moved = tail_moved n par dummy s

  abbrev after : Memfs
  after = with_head par (moved.nodes n).next moved

  after_kept {ℓ} :
      {A : Type ℓ}
      → (f : MemNode → A) (k : ℕ) → ((x : MemNode) (a : ℕ) → f (record x { clist = a }) ≡ f x)
      → ((x : MemNode) (a : ℕ) → f (record x { ctail = a }) ≡ f x)
      → f (after.nodes k) ≡ f (s.nodes k)
  after_kept f k hl hc =
      head_kept f par (moved.nodes n).next k moved hl ∙ tail_moved_kept f n par dummy k s hc

  rest_n : without n (kids par) ≡ xs
  rest_n = let this : (n == n) ≡ true = ground arith in rw (first, this) refl

  rest_tail : (ys : List ℕ) → ys ≡ xs → (ys ≡ []) ⊎ ((after.nodes par).ctail ≡ last_of ys)
  rest_tail [] e = inl refl
  rest_tail (z ∷ zs) e =
      let last : (s.nodes par).ctail ≡ last_of (z ∷ zs) = t ∙ ap (λ w. last_of (n ∷ w)) (sym e) in
      let there_n : (s.nodes par).ctail ≢ n =
        λ q. d.0 (Has-eq _ n xs (sym last ∙ q) (rw (sym e) (Has-last z zs))) in
      inr (
        head_kept (λ x. x.ctail) par (moved.nodes n).next par moved (λ x a. refl)
        ∙ (tail_moved_ctail n par dummy s).1 there_n
        ∙ last)

  after_clist : (after.nodes par).clist ≡ (s.nodes n).next
  after_clist =
      ap (λ (x : MemNode). x.clist) (update_here moved.nodes par _)
      ∙ tail_moved_kept (λ x. x.next) n par dummy n s (λ x a. refl)

  pub first-IsUnlinked : IsUnlinked kids n par s after
  first-IsUnlinked = record {
    same_root = (tail_moved_root n par dummy s).0;
    same_handles = (tail_moved_root n par dummy s).1;
    same_name = λ k. after_kept (λ x. x.name) k (λ x a. refl) (λ x a. refl);
    same_is_dir = λ k. after_kept (λ x. x.is_dir) k (λ x a. refl) (λ x a. refl);
    same_parent = λ k. after_kept (λ x. x.parent) k (λ x a. refl) (λ x a. refl);
    same_fsnode = λ k. after_kept (λ x. x.fsnode) k (λ x a. refl) (λ x a. refl);
    same_clist = λ k ne.
        ap (λ (x : MemNode). x.clist)
          (update_other moved.nodes par _ k ne ∙ tail_moved_far n par dummy k s ne);
    same_ctail = λ k ne.
        ap (λ (x : MemNode). x.ctail)
          (update_other moved.nodes par _ k ne ∙ tail_moved_far n par dummy k s ne);
    same_next = λ k i. after_kept (λ x. x.next) k (λ x a. refl) (λ x a. refl);
    cut_chain =
        rw (rest_n, after_clist)
          (Chain-same s.nodes after.nodes (s.nodes n).next xs
            (λ k i. after_kept (λ x. x.next) k (λ x a. refl) (λ x a. refl)) c);
    cut_tail = rest_tail (without n (kids par)) rest_n;
  }

module _ (kids : ℕ → List ℕ) (n par x : ℕ) (s : Memfs) (xs : List ℕ) (later : kids par ≡ x ∷ xs)
    (ne : x ≢ n) (i : Has n xs) (d : Nodup (x ∷ xs)) (c : Chain s.nodes x (x ∷ xs))
    (t : (s.nodes par).ctail ≡ last_of (x ∷ xs)) where
  abbrev q : ℕ
  q = before n x xs

  abbrev past : Memfs
  past = linked_past n par q s

  abbrev cut : Memfs
  cut = tail_moved n par q s

  abbrev then_s : Memfs
  then_s = with_head par x past

  then_kept {ℓ} :
      {A : Type ℓ}
      → (f : MemNode → A) (k : ℕ) → ((x : MemNode) (a : ℕ) → f (record x { clist = a }) ≡ f x)
      → ((x : MemNode) (a : ℕ) → f (record x { ctail = a }) ≡ f x)
      → ((x : MemNode) (a : ℕ) → f (record x { next = a }) ≡ f x)
      → f (then_s.nodes k) ≡ f (s.nodes k)
  then_kept f k hl hc hn = head_kept f par x k past hl ∙ linked_past_kept f n par q k s hc hn

  then_far {ℓ} :
      {A : Type ℓ}
      → (f : MemNode → A) (k : ℕ) → ((x : MemNode) (a : ℕ) → f (record x { next = a }) ≡ f x)
      → k ≢ par
      → f (then_s.nodes k) ≡ f (s.nodes k)
  then_far f k hn far =
      ap f (update_other past.nodes par _ k far)
      ∙ update_field f cut.nodes q _ k (hn (cut.nodes q) (cut.nodes n).next)
      ∙ ap f (tail_moved_far n par q k s far)

  next_other : (k : ℕ) → k ≢ q → (then_s.nodes k).next ≡ (s.nodes k).next
  next_other k far =
      head_kept (λ x. x.next) par x k past (λ x a. refl)
      ∙ ap (λ (x : MemNode). x.next) (update_other cut.nodes q _ k far)
      ∙ tail_moved_kept (λ x. x.next) n par q k s (λ x a. refl)

  next_here : (then_s.nodes q).next ≡ (s.nodes n).next
  next_here =
      head_kept (λ x. x.next) par x q past (λ x a. refl)
      ∙ ap (λ (x : MemNode). x.next) (update_here cut.nodes q _)
      ∙ tail_moved_kept (λ x. x.next) n par q n s (λ x a. refl)

  then_ctail : (then_s.nodes par).ctail ≡ (cut.nodes par).ctail
  then_ctail =
      head_kept (λ x. x.ctail) par x par past (λ x a. refl)
      ∙ update_field (λ x. x.ctail) cut.nodes q _ par refl

  then_clist : (then_s.nodes par).clist ≡ x
  then_clist = ap (λ (x : MemNode). x.clist) (update_here past.nodes par _)

  tail_left : (then_s.nodes par).ctail ≡ last_of (without n (x ∷ xs))
  tail_left = elim (Bool-cases ((s.nodes par).ctail == n)) [
    | inl e ↦
        let at : (s.nodes par).ctail ≡ n = ground arith in
        then_ctail
        ∙ (tail_moved_ctail n par q s).0 at
        ∙ sym (last-without-before n x xs d ne (sym t ∙ at))
    | inr e ↦
        let far : (s.nodes par).ctail ≢ n = ground arith in
        then_ctail
        ∙ (tail_moved_ctail n par q s).1 far
        ∙ t
        ∙ sym (last-without n x xs ne (λ z. far (t ∙ z)))
  ]

  pub later-IsUnlinked : IsUnlinked kids n par s then_s
  later-IsUnlinked = record {
    same_root = (tail_moved_root n par q s).0;
    same_handles = (tail_moved_root n par q s).1;
    same_name = λ k. then_kept (λ x. x.name) k (λ x a. refl) (λ x a. refl) (λ x a. refl);
    same_is_dir = λ k. then_kept (λ x. x.is_dir) k (λ x a. refl) (λ x a. refl) (λ x a. refl);
    same_parent = λ k. then_kept (λ x. x.parent) k (λ x a. refl) (λ x a. refl) (λ x a. refl);
    same_fsnode = λ k. then_kept (λ x. x.fsnode) k (λ x a. refl) (λ x a. refl) (λ x a. refl);
    same_clist = λ k far. then_far (λ x. x.clist) k (λ x a. refl) far;
    same_ctail = λ k far. then_far (λ x. x.ctail) k (λ x a. refl) far;
    same_next = λ k no_kid. next_other k (λ e. no_kid (rw (e, later) (Has-before n x xs)));
    cut_chain =
        rw (later, then_clist)
          (Chain-without s.nodes then_s.nodes n x x xs c d ne i next_other next_here);
    cut_tail = inr (rw later tail_left);
  }
