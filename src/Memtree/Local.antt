-- ===== src/Memtree/Local.antt =====
-- The handles of nodes in src/fsmem.c, which `open` reads at a mount point.
use boss.Prelude.{
  ℕ, zero, suc, ◌≡◌, ◌≢◌, refl, ◌∙◌, sym, Bool, true, false, inl, inr, ◌⊎◌, Bool-cases, none, some,
  Option, List, ◌==◌, if◌then◌else◌, arith,
}
use boss.Memtree.{FsNode, Memfs, mounted_on}
use boss.Memtree.Tree.{IsLocal}
use boss.Memtree.Linking.{update_other}
use boss.Memtree.Fresh.{created, fsnode_new, fsnode_old, handle_new, handle_old}
use boss.Memtree.Create.{live_with}

-- No handle, or one on which nothing is mounted.
abbrev Unmounted : Memfs → ℕ → Type 0
Unmounted s f = (f ≡ 0) ⊎ ((fsn : FsNode) × (s.handles f ≡ some fsn) × (fsn.mnt ≡ 0))

Unmounted-mounted_on :
    (s : Memfs) (n : ℕ) → Unmounted s (s.nodes n).fsnode → mounted_on s n ≡ some 0
unfolding mounted_on
Unmounted-mounted_on s n (inl e) =
    let z : ((s.nodes n).fsnode == 0) ≡ true = ground (arith, e) in rw z refl
Unmounted-mounted_on s n (inr (fsn, e, m)) = elim (Bool-cases ((s.nodes n).fsnode == 0)) [
  | inl z ↦ rw z refl
  | inr z ↦ rw (z, e, m) refl
]

read_zero :
    (f : ℕ) (o : Option FsNode)
    → (if f == 0
        then some 0
        else elim o as (λ o. Option ℕ) [ none ↦ none | some fsn ↦ some fsn.mnt ])
      ≡ some 0
    → (f ≡ 0) ⊎ ((fsn : FsNode) × (o ≡ some fsn) × (fsn.mnt ≡ 0))
read_zero zero o h = inl refl
read_zero (suc f) none h =
    let some_node : (suc f == 0) ≡ false = ground arith in
    let nothing : Option ℕ = none in let e : nothing ≡ some 0 = rw some_node at h in absurd cc
read_zero (suc f) (some fsn) h =
    let some_node : (suc f == 0) ≡ false = ground arith in
    let e : some fsn.mnt ≡ some 0 = rw some_node at h in inr (fsn, refl, cc)

mounted_on-Unmounted :
    (s : Memfs) (n : ℕ) → mounted_on s n ≡ some 0 → Unmounted s (s.nodes n).fsnode
unfolding mounted_on
mounted_on-Unmounted s n h = read_zero (s.nodes n).fsnode (s.handles (s.nodes n).fsnode) h

module _ (d n h : ℕ) (dir : Bool) (name : List ℕ) (s : Memfs) (live : ℕ → Bool)
    (nl : live n ≡ false) where
  abbrev s' : Memfs
  s' = created d n h dir name s

  Unmounted-after : (f : ℕ) → Unmounted s f → Unmounted s' f
  Unmounted-after f (inl e) = inl e
  Unmounted-after f (inr (fsn, e, m)) = elim (Bool-cases (f == h)) [
    | inl at ↦
        let same : f ≡ h = ground arith in
        let (new, e', node, m') = handle_new d n h dir name s in inr (new, rw same e', m')
    | inr far ↦ inr (fsn, handle_old d n h dir name s f (ground arith) ∙ e, m)
  ]

  -- A new node and handle mount nothing.
  pub created-IsLocal : IsLocal live s → IsLocal (live_with n live) s'
  created-IsLocal ok = record {
    local = λ k l. Unmounted-mounted_on s' k (elim (Bool-cases (k == n)) [
      | inl e ↦
          let at : k ≡ n = ground arith in
          let (new, e', node, m) = handle_new d n h dir name s in
          inr (new, rw (at, fsnode_new d n h dir name s) e', m)
      | inr e ↦
          let ne : k ≢ n = ground arith in
          let was : live k ≡ true = sym (update_other live n true k ne) ∙ l in
          rw (fsnode_old d n h dir name s k ne)
            (Unmounted-after _ (mounted_on-Unmounted s k (ok.local k was)))
    ]);
  }
