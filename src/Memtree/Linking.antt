-- ===== src/Memtree/Linking.antt =====
-- Linking a new node into the tree, `add_child` and `create_fsnode` of src/fsmem.c: the fields of the nodes after it.
use boss.Prelude.{
  ℕ, ◌≡◌, ◌≢◌, refl, ◌∙◌, sym, ap, Bool, true, false, inl, inr, Bool-cases, ◌==◌, if◌then◌else◌,
  arith, update,
}
use boss.Memtree.{MemNode, Memfs, set_node, add_child}

pub update_here {ℓ} : {A : Type ℓ} → (f : ℕ → A) (i : ℕ) (v : A) → update f i v i ≡ v
update_here f i v = let e : (i == i) ≡ true = ground arith in rw e refl

pub update_other {ℓ} :
    {A : Type ℓ} → (f : ℕ → A) (i : ℕ) (v : A) (k : ℕ) → k ≢ i → update f i v k ≡ f k
update_other f i v k ne = let e : (k == i) ≡ false = ground (arith, ne) in rw e refl

-- An update that keeps a field of its node keeps it in all nodes.
pub update_field {ℓ} :
    {A : Type ℓ}
    → (f : MemNode → A) (nodes : ℕ → MemNode) (i : ℕ) (v : MemNode) (k : ℕ) → f v ≡ f (nodes i)
    → f (update nodes i v k) ≡ f (nodes k)
update_field f nodes i v k e = elim (Bool-cases (k == i)) [
  | inl same ↦ let at : k ≡ i = ground arith in rw same (e ∙ ap (λ j. f (nodes j)) (sym at))
  | inr other ↦ rw other refl
]

-- The node behind the tail of `d`.
abbrev tailed : ℕ → ℕ → Memfs → Memfs
tailed d n s = set_node (s.nodes d).ctail (record (s.nodes (s.nodes d).ctail) { next = n }) s

-- The links of `add_child` but the last.
abbrev linked : Bool → ℕ → ℕ → Memfs → Memfs
linked empty d n s =
    if empty
    then set_node d (record (s.nodes d) { clist = n; ctail = n }) s
    else set_node d (record ((tailed d n s).nodes d) { ctail = n }) (tailed d n s)

pub add_child-linked :
    (d n : ℕ) (s : Memfs) (b : Bool)
    → ((s.nodes d).clist == 0) ≡ b
    → add_child d n s
      ≡ set_node n (record ((linked b d n s).nodes n) { parent = d }) (linked b d n s)
unfolding add_child
add_child-linked d n s b e =
    ap (λ b. set_node n (record ((linked b d n s).nodes n) { parent = d }) (linked b d n s)) e

-- What the three links of `add_child` keep of a node.
linked_kept {ℓ} :
    {A : Type ℓ}
    → (f : MemNode → A) (b : Bool) (d n k : ℕ) (s : Memfs)
    → ((x : MemNode) (a b : ℕ) → f (record x { clist = a; ctail = b }) ≡ f x)
    → ((x : MemNode) (a : ℕ) → f (record x { next = a }) ≡ f x)
    → f ((linked b d n s).nodes k) ≡ f (s.nodes k)
linked_kept f true d n k s hc hn = update_field f s.nodes d _ k (hc (s.nodes d) n n)
linked_kept f false d n k s hc hn =
    let t : ℕ = (s.nodes d).ctail in
    update_field f (tailed d n s).nodes d _ k
      (hc ((tailed d n s).nodes d) ((tailed d n s).nodes d).clist n)
    ∙ update_field f s.nodes t _ k (hn (s.nodes t) n)

pub add_child_kept {ℓ} :
    {A : Type ℓ}
    → (f : MemNode → A) (d n k : ℕ) (s : Memfs)
    → ((x : MemNode) (a b : ℕ) → f (record x { clist = a; ctail = b }) ≡ f x)
    → ((x : MemNode) (a : ℕ) → f (record x { next = a }) ≡ f x)
    → ((x : MemNode) (a : ℕ) → f (record x { parent = a }) ≡ f x)
    → f ((add_child d n s).nodes k) ≡ f (s.nodes k)
add_child_kept f d n k s hc hn hp =
    let b = (s.nodes d).clist == 0 in
    let l = linked b d n s in
    ap (λ t. f (t.nodes k)) (add_child-linked d n s b refl)
    ∙ update_field f l.nodes n _ k (hp (l.nodes n) d)
    ∙ linked_kept f b d n k s hc hn

-- The fields that the links change.
module _ (d n : ℕ) (s : Memfs) where
  pub parent_here : ((add_child d n s).nodes n).parent ≡ d
  parent_here =
      let b = (s.nodes d).clist == 0 in
      ap (λ t. (t.nodes n).parent) (add_child-linked d n s b refl)
      ∙ ap (λ x. x.parent) (update_here (linked b d n s).nodes n _)

  pub parent_other : (k : ℕ) → k ≢ n → ((add_child d n s).nodes k).parent ≡ (s.nodes k).parent
  parent_other k ne =
      let b = (s.nodes d).clist == 0 in
      ap (λ t. (t.nodes k).parent) (add_child-linked d n s b refl)
      ∙ ap (λ x. x.parent) (update_other (linked b d n s).nodes n _ k ne)
      ∙ linked_kept (λ x. x.parent) b d n k s (λ x a b. refl) (λ x a. refl)

  links_kept {ℓ} :
      {A : Type ℓ}
      → (f : MemNode → A) (k : ℕ) (b : Bool)
      → ((x : MemNode) (a : ℕ) → f (record x { parent = a }) ≡ f x)
      → ((s.nodes d).clist == 0) ≡ b
      → f ((add_child d n s).nodes k) ≡ f ((linked b d n s).nodes k)
  links_kept f k b hp e =
      ap (λ t. f (t.nodes k)) (add_child-linked d n s b e)
      ∙ update_field f (linked b d n s).nodes n _ k (hp ((linked b d n s).nodes n) d)

  pub first_next :
      (k : ℕ) → (s.nodes d).clist ≡ 0 → ((add_child d n s).nodes k).next ≡ (s.nodes k).next
  first_next k e =
      links_kept (λ x. x.next) k true (λ x a. refl) (rw e refl)
      ∙ update_field (λ x. x.next) s.nodes d _ k refl

  pub first_clist : (s.nodes d).clist ≡ 0 → ((add_child d n s).nodes d).clist ≡ n
  first_clist e =
      links_kept (λ x. x.clist) d true (λ x a. refl) (rw e refl)
      ∙ ap (λ x. x.clist) (update_here s.nodes d _)

  pub more_clist : (s.nodes d).clist ≢ 0 → ((add_child d n s).nodes d).clist ≡ (s.nodes d).clist
  more_clist e =
      let t : ℕ = (s.nodes d).ctail in
      let some_kid : ((s.nodes d).clist == 0) ≡ false = ground (arith, e) in
      links_kept (λ x. x.clist) d false (λ x a. refl) some_kid
      ∙ update_field (λ x. x.clist) (tailed d n s).nodes d _ d refl
      ∙ update_field (λ x. x.clist) s.nodes t _ d refl

  pub more_next_tail : (s.nodes d).clist ≢ 0 → ((add_child d n s).nodes (s.nodes d).ctail).next ≡ n
  more_next_tail e =
      let t : ℕ = (s.nodes d).ctail in
      let some_kid : ((s.nodes d).clist == 0) ≡ false = ground (arith, e) in
      links_kept (λ x. x.next) t false (λ x a. refl) some_kid
      ∙ update_field (λ x. x.next) (tailed d n s).nodes d _ t refl
      ∙ ap (λ x. x.next) (update_here s.nodes t _)

  pub more_next_other :
      (k : ℕ)
      → (s.nodes d).clist ≢ 0
      → k ≢ (s.nodes d).ctail
      → ((add_child d n s).nodes k).next ≡ (s.nodes k).next
  more_next_other k e ne =
      let t : ℕ = (s.nodes d).ctail in
      let some_kid : ((s.nodes d).clist == 0) ≡ false = ground (arith, e) in
      links_kept (λ x. x.next) k false (λ x a. refl) some_kid
      ∙ update_field (λ x. x.next) (tailed d n s).nodes d _ k refl
      ∙ ap (λ x. x.next) (update_other s.nodes t _ k ne)

  pub new_ctail : ((add_child d n s).nodes d).ctail ≡ n
  new_ctail = elim (Bool-cases ((s.nodes d).clist == 0)) [
    | inl e ↦
        links_kept (λ x. x.ctail) d true (λ x a. refl) e
        ∙ ap (λ x. x.ctail) (update_here s.nodes d _)
    | inr e ↦
        links_kept (λ x. x.ctail) d false (λ x a. refl) e
        ∙ ap (λ x. x.ctail) (update_here (tailed d n s).nodes d _)
  ]

  -- No other directory is changed.
  pub ends_other {ℓ} :
      {A : Type ℓ}
      → (f : MemNode → A) (k : ℕ) → ((x : MemNode) (a : ℕ) → f (record x { next = a }) ≡ f x)
      → ((x : MemNode) (a : ℕ) → f (record x { parent = a }) ≡ f x)
      → k ≢ d
      → f ((add_child d n s).nodes k) ≡ f (s.nodes k)
  ends_other f k hn hp ne = elim (Bool-cases ((s.nodes d).clist == 0)) [
    | inl e ↦ links_kept f k true hp e ∙ ap f (update_other s.nodes d _ k ne)
    | inr e ↦
        links_kept f k false hp e
        ∙ ap f (update_other (tailed d n s).nodes d _ k ne)
        ∙ update_field f s.nodes (s.nodes d).ctail _ k (hn (s.nodes (s.nodes d).ctail) n)
  ]
