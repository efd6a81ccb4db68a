-- ===== src/Memtree/Fresh.antt =====
-- `open` of src/fsmem.c where it creates a node: the fields of the nodes after it.
use boss.Prelude.{
  ℕ, ◌≡◌, ◌≢◌, refl, ◌∙◌, sym, ap, Bool, true, false, inl, inr, Bool-cases, some, List, ◌==◌,
  if◌then◌else◌, arith,
}
use boss.Memtree.{MemNode, FsNode, Memfs, set_node, alloc_node, add_child, create_fsnode}
use boss.Memtree.Linking.{
  update_here, update_other, update_field, add_child-linked, add_child_kept, parent_here,
  parent_other, first_next, first_clist, more_clist, more_next_tail, more_next_other, new_ctail,
  ends_other,
}

-- What a new node `n` and a handle `h` on it make of the state.
abbrev pub created : ℕ → ℕ → ℕ → Bool → List ℕ → Memfs → Memfs
created d n h dir name s =
    (create_fsnode (some h) true n
      (add_child d n (set_node n (record (alloc_node dir) { name = name }) s))).1

-- A node without a handle gets the new one.
set_once :
    (x : MemNode) (h : ℕ)
    → x.fsnode ≡ 0
    → (if x.fsnode == 0 then record x { fsnode = h } else x).fsnode ≡ h
set_once x h e =
    let unset : (x.fsnode == 0) ≡ true = ground (arith, e) in
    ap (λ b. (if b then record x { fsnode = h } else x).fsnode) unset

module _ (d n h : ℕ) (dir : Bool) (name : List ℕ) (s : Memfs) where
  abbrev fresh : Memfs
  fresh = set_node n (record (alloc_node dir) { name = name }) s

  abbrev after : Memfs
  after = created d n h dir name s

  -- A handle changes only `fsnode`.
  created_field {ℓ} :
      {A : Type ℓ}
      → (f : MemNode → A) (k : ℕ) → ((x : MemNode) (a : ℕ) → f (record x { fsnode = a }) ≡ f x)
      → f (after.nodes k) ≡ f ((add_child d n fresh).nodes k)
  unfolding create_fsnode
  created_field f k hf =
      let a = add_child d n fresh in
      update_field f a.nodes n _ k (elim (Bool-cases ((a.nodes n).fsnode == 0)) [
        | inl e ↦ rw e (hf (a.nodes n) h)
        | inr e ↦ rw e refl
      ])

  pub created_root : after.rootdir ≡ s.rootdir
  unfolding create_fsnode
  created_root = elim (Bool-cases ((fresh.nodes d).clist == 0)) [
    | inl e ↦ ap (λ t. t.rootdir) (add_child-linked d n fresh true e)
    | inr e ↦ ap (λ t. t.rootdir) (add_child-linked d n fresh false e)
  ]

  -- The fields that only a new node has from elsewhere.
  pub created_kept {ℓ} :
      {A : Type ℓ}
      → (f : MemNode → A) (k : ℕ) → ((x : MemNode) (a : ℕ) → f (record x { fsnode = a }) ≡ f x)
      → ((x : MemNode) (a b : ℕ) → f (record x { clist = a; ctail = b }) ≡ f x)
      → ((x : MemNode) (a : ℕ) → f (record x { next = a }) ≡ f x)
      → ((x : MemNode) (a : ℕ) → f (record x { parent = a }) ≡ f x)
      → k ≢ n
      → f (after.nodes k) ≡ f (s.nodes k)
  created_kept f k hf hc hn hp ne =
      created_field f k hf
      ∙ add_child_kept f d n k fresh hc hn hp
      ∙ ap f (update_other s.nodes n _ k ne)

  pub name_other : (k : ℕ) → k ≢ n → (after.nodes k).name ≡ (s.nodes k).name
  name_other k ne =
      created_kept (λ x. x.name) k (λ x a. refl) (λ x a b. refl) (λ x a. refl) (λ x a. refl) ne

  pub name_new : (after.nodes n).name ≡ name
  name_new =
      created_field (λ x. x.name) n (λ x a. refl)
      ∙ add_child_kept (λ x. x.name) d n n fresh (λ x a b. refl) (λ x a. refl) (λ x a. refl)
      ∙ ap (λ x. x.name) (update_here s.nodes n _)

  pub is_dir_other : (k : ℕ) → k ≢ n → (after.nodes k).is_dir ≡ (s.nodes k).is_dir
  is_dir_other k ne =
      created_kept (λ x. x.is_dir) k (λ x a. refl) (λ x a b. refl) (λ x a. refl) (λ x a. refl) ne

  pub fsnode_old : (k : ℕ) → k ≢ n → (after.nodes k).fsnode ≡ (s.nodes k).fsnode
  unfolding create_fsnode
  fsnode_old k ne =
      ap (λ (x : MemNode). x.fsnode) (update_other (add_child d n fresh).nodes n _ k ne)
      ∙ add_child_kept (λ x. x.fsnode) d n k fresh (λ x a b. refl) (λ x a. refl) (λ x a. refl)
      ∙ ap (λ x. x.fsnode) (update_other s.nodes n _ k ne)

  pub fsnode_new : (after.nodes n).fsnode ≡ h
  unfolding create_fsnode alloc_node
  fsnode_new =
      let a = add_child d n fresh in
      let unset : (a.nodes n).fsnode ≡ 0 =
        add_child_kept (λ x. x.fsnode) d n n fresh (λ x a b. refl) (λ x a. refl) (λ x a. refl)
        ∙ ap (λ x. x.fsnode) (update_here s.nodes n _) in
      ap (λ (x : MemNode). x.fsnode) (update_here a.nodes n _) ∙ set_once (a.nodes n) h unset

  pub handle_new : (fsn : FsNode) × (after.handles h ≡ some fsn) × (fsn.node ≡ n) × (fsn.mnt ≡ 0)
  unfolding create_fsnode
  handle_new = (_, update_here (add_child d n fresh).handles h _, refl, refl)

  pub handle_old : (f : ℕ) → f ≢ h → after.handles f ≡ s.handles f
  unfolding create_fsnode
  handle_old f ne =
      update_other (add_child d n fresh).handles h _ f ne
      ∙ elim (Bool-cases ((fresh.nodes d).clist == 0)) [
        | inl e ↦ ap (λ t. t.handles f) (add_child-linked d n fresh true e)
        | inr e ↦ ap (λ t. t.handles f) (add_child-linked d n fresh false e)
      ]

module _ (d n h : ℕ) (dir : Bool) (name : List ℕ) (s : Memfs) (new : n ≢ d) where
  abbrev then_s : Memfs
  then_s = created d n h dir name s

  abbrev fresh_s : Memfs
  fresh_s = fresh d n h dir name s

  pub fresh_d : fresh_s.nodes d ≡ s.nodes d
  fresh_d = update_other s.nodes n _ d (λ e. new (sym e))

  pub fresh_n : fresh_s.nodes n ≡ record (alloc_node dir) { name = name }
  fresh_n = update_here s.nodes n _

  pub parent_new : (then_s.nodes n).parent ≡ d
  parent_new =
      created_field d n h dir name s (λ x. x.parent) n (λ x a. refl) ∙ parent_here d n fresh_s

  pub parent_old : (k : ℕ) → k ≢ n → (then_s.nodes k).parent ≡ (s.nodes k).parent
  parent_old k ne =
      created_field d n h dir name s (λ x. x.parent) k (λ x a. refl)
      ∙ parent_other d n fresh_s k ne
      ∙ ap (λ x. x.parent) (update_other s.nodes n _ k ne)

  pub clist_new : (then_s.nodes n).clist ≡ 0
  unfolding alloc_node
  clist_new =
      created_field d n h dir name s (λ x. x.clist) n (λ x a. refl)
      ∙ ends_other d n fresh_s (λ x. x.clist) n (λ x a. refl) (λ x a. refl) new
      ∙ ap (λ x. x.clist) fresh_n

  pub clist_old : (k : ℕ) → k ≢ n → k ≢ d → (then_s.nodes k).clist ≡ (s.nodes k).clist
  clist_old k ne far =
      created_field d n h dir name s (λ x. x.clist) k (λ x a. refl)
      ∙ ends_other d n fresh_s (λ x. x.clist) k (λ x a. refl) (λ x a. refl) far
      ∙ ap (λ x. x.clist) (update_other s.nodes n _ k ne)

  pub ctail_old : (k : ℕ) → k ≢ n → k ≢ d → (then_s.nodes k).ctail ≡ (s.nodes k).ctail
  ctail_old k ne far =
      created_field d n h dir name s (λ x. x.ctail) k (λ x a. refl)
      ∙ ends_other d n fresh_s (λ x. x.ctail) k (λ x a. refl) (λ x a. refl) far
      ∙ ap (λ x. x.ctail) (update_other s.nodes n _ k ne)

  pub ctail_here : (then_s.nodes d).ctail ≡ n
  ctail_here = created_field d n h dir name s (λ x. x.ctail) d (λ x a. refl) ∙ new_ctail d n fresh_s

  pub clist_first : (s.nodes d).clist ≡ 0 → (then_s.nodes d).clist ≡ n
  clist_first e =
      created_field d n h dir name s (λ x. x.clist) d (λ x a. refl)
      ∙ first_clist d n fresh_s (ap (λ x. x.clist) fresh_d ∙ e)

  pub clist_more : (s.nodes d).clist ≢ 0 → (then_s.nodes d).clist ≡ (s.nodes d).clist
  clist_more e =
      created_field d n h dir name s (λ x. x.clist) d (λ x a. refl)
      ∙ more_clist d n fresh_s (λ z. e (ap (λ x. x.clist) (sym fresh_d) ∙ z))
      ∙ ap (λ x. x.clist) fresh_d

  pub next_first :
      (k : ℕ) → (s.nodes d).clist ≡ 0 → k ≢ n → (then_s.nodes k).next ≡ (s.nodes k).next
  next_first k e ne =
      created_field d n h dir name s (λ x. x.next) k (λ x a. refl)
      ∙ first_next d n fresh_s k (ap (λ x. x.clist) fresh_d ∙ e)
      ∙ ap (λ x. x.next) (update_other s.nodes n _ k ne)

  pub next_other :
      (k : ℕ)
      → (s.nodes d).clist ≢ 0
      → k ≢ n
      → k ≢ (s.nodes d).ctail
      → (then_s.nodes k).next ≡ (s.nodes k).next
  next_other k e ne far =
      created_field d n h dir name s (λ x. x.next) k (λ x a. refl)
      ∙ more_next_other d n fresh_s k (λ z. e (ap (λ x. x.clist) (sym fresh_d) ∙ z))
          (λ z. far (z ∙ ap (λ x. x.ctail) fresh_d))
      ∙ ap (λ x. x.next) (update_other s.nodes n _ k ne)

  pub next_tail : (s.nodes d).clist ≢ 0 → (then_s.nodes (s.nodes d).ctail).next ≡ n
  next_tail e =
      created_field d n h dir name s (λ x. x.next) (s.nodes d).ctail (λ x a. refl)
      ∙ ap (λ t. ((add_child d n fresh_s).nodes t).next) (ap (λ x. x.ctail) (sym fresh_d))
      ∙ more_next_tail d n fresh_s (λ z. e (ap (λ x. x.clist) (sym fresh_d) ∙ z))

  pub next_new : ((s.nodes d).clist ≢ 0 → n ≢ (s.nodes d).ctail) → (then_s.nodes n).next ≡ 0
  unfolding alloc_node
  next_new ne =
      let part = created_field d n h dir name s (λ x. x.next) n (λ x a. refl) in
      elim (Bool-cases ((s.nodes d).clist == 0)) [
        | inl e ↦
            part
            ∙ first_next d n fresh_s n (ap (λ x. x.clist) fresh_d ∙ ground arith)
            ∙ ap (λ x. x.next) fresh_n
        | inr e ↦
            part
            ∙ more_next_other d n fresh_s n
                (λ z. let c = ap (λ x. x.clist) (sym fresh_d) ∙ z in ground arith)
                (λ z. ne (ground (arith, e)) (z ∙ ap (λ x. x.ctail) fresh_d))
            ∙ ap (λ x. x.next) fresh_n
      ]
