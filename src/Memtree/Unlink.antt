-- ===== src/Memtree/Unlink.antt =====
-- The loop of `remove` of src/fsmem.c, and the fields of the nodes after it.
use boss.Prelude.{
  ℕ, zero, suc, ◌≤◌, ◌≡◌, ◌≢◌, refl, ◌∙◌, ap, true, false, inl, inr, Bool-cases, none, some, List,
  [], ◌∷◌, length, ◌==◌, if◌then◌else◌, arith,
}
use boss.Memtree.{MemNode, Memfs, set_node, unlink}
use boss.Memtree.Chains.{Has, Chain}
use boss.Memtree.Linking.{update_here, update_other, update_field}
use boss.Memtree.Without.{before, Has-tail}

-- The tail is moved to `place` if it is the removed node.
abbrev pub tail_moved : ℕ → ℕ → ℕ → Memfs → Memfs
tail_moved n par place s =
    if (s.nodes par).ctail == n then set_node par (record (s.nodes par) { ctail = place }) s else s

-- The node `q` is linked to the one behind `n`.
abbrev pub linked_past : ℕ → ℕ → ℕ → Memfs → Memfs
linked_past n par q s =
    let cut = tail_moved n par q s in
    set_node q (record (cut.nodes q) { next = (cut.nodes n).next }) cut

pub unlink_later :
    (fuel dummy n par p head : ℕ) (s : Memfs) (rest : List ℕ)
    → Chain s.nodes (s.nodes p).next rest
    → Has n rest
    → length rest ≤ fuel
    → unlink fuel dummy n par (some p) head s
      ≡ some (true, head, linked_past n par (before n p rest) s)
unfolding unlink
unlink_later fuel dummy n par p head s [] c i h = elim i [ ]
unlink_later zero dummy n par p head s (x ∷ xs) c i h = absurd (omega arith)
unlink_later (suc fuel) dummy n par p head s (x ∷ xs) (a, b, c) i h =
    let some_node : ((s.nodes p).next == 0) ≡ false = ground (arith, a, b) in
    elim (Bool-cases (x == n)) [
      | inl e ↦
          let this : ((s.nodes p).next == n) ≡ true = ground (arith, a, e) in
          rw (some_node, this, e, unlink) refl
      | inr e ↦
          let other : ((s.nodes p).next == n) ≡ false = ground (arith, a, e) in
          let rest =
            unlink_later fuel dummy n par x head s xs c (Has-tail n x xs (ground arith) i)
              (omega arith) in
          rw (some_node, other, e, unlink)
            (ap (λ y. unlink fuel dummy n par (some y) head s) a ∙ rest)
    ]

pub unlink_first :
    (fuel dummy n par : ℕ) (s : Memfs)
    → n ≢ 0
    → unlink (suc fuel) dummy n par none n s
      ≡ some (true, ((tail_moved n par dummy s).nodes n).next, tail_moved n par dummy s)
unfolding unlink
unlink_first fuel dummy n par s ne =
    let some_node : (n == 0) ≡ false = ground (arith, ne) in
    let itself : (n == n) ≡ true = ground arith in rw (some_node, itself, unlink) refl

pub unlink_next :
    (fuel dummy n par x : ℕ) (s : Memfs) (rest : List ℕ)
    → x ≢ 0
    → x ≢ n
    → Chain s.nodes (s.nodes x).next rest
    → Has n rest
    → length rest ≤ fuel
    → unlink (suc fuel) dummy n par none x s ≡ some (true, x, linked_past n par (before n x rest) s)
unfolding unlink
unlink_next fuel dummy n par x s rest ne far c i h =
    let some_node : (x == 0) ≡ false = ground (arith, ne) in
    let other : (x == n) ≡ false = ground (arith, far) in
    rw (some_node, other, unlink) (unlink_later fuel dummy n par x x s rest c i h)

-- The fields of the nodes after it.
pub tail_moved_kept {ℓ} :
    {A : Type ℓ}
    → (f : MemNode → A) (n par place k : ℕ) (s : Memfs)
    → ((x : MemNode) (a : ℕ) → f (record x { ctail = a }) ≡ f x)
    → f ((tail_moved n par place s).nodes k) ≡ f (s.nodes k)
tail_moved_kept f n par place k s hc = elim (Bool-cases ((s.nodes par).ctail == n)) [
  | inl e ↦ rw e (update_field f s.nodes par _ k (hc (s.nodes par) place))
  | inr e ↦ rw e refl
]

pub linked_past_kept {ℓ} :
    {A : Type ℓ}
    → (f : MemNode → A) (n par q k : ℕ) (s : Memfs)
    → ((x : MemNode) (a : ℕ) → f (record x { ctail = a }) ≡ f x)
    → ((x : MemNode) (a : ℕ) → f (record x { next = a }) ≡ f x)
    → f ((linked_past n par q s).nodes k) ≡ f (s.nodes k)
linked_past_kept f n par q k s hc hn =
    let cut = tail_moved n par q s in
    update_field f cut.nodes q _ k (hn (cut.nodes q) (cut.nodes n).next)
    ∙ tail_moved_kept f n par q k s hc

pub tail_moved_far :
    (n par place k : ℕ) (s : Memfs) → k ≢ par → (tail_moved n par place s).nodes k ≡ s.nodes k
tail_moved_far n par place k s ne = elim (Bool-cases ((s.nodes par).ctail == n)) [
  | inl e ↦ rw e (update_other s.nodes par _ k ne)
  | inr e ↦ rw e refl
]

pub tail_moved_ctail :
    (n par place : ℕ) (s : Memfs)
    → ((s.nodes par).ctail ≡ n → ((tail_moved n par place s).nodes par).ctail ≡ place)
      × ((s.nodes par).ctail ≢ n
          → ((tail_moved n par place s).nodes par).ctail ≡ (s.nodes par).ctail)
tail_moved_ctail n par place s = (
  λ e.
      let this : ((s.nodes par).ctail == n) ≡ true = ground (arith, e) in
      ap
        (λ b.
          ((if b then set_node par (record (s.nodes par) { ctail = place }) s else s).nodes
            par).ctail)
        this
      ∙ ap (λ (x : MemNode). x.ctail) (update_here s.nodes par _),
  λ ne.
      let other : ((s.nodes par).ctail == n) ≡ false = ground (arith, ne) in
      ap
        (λ b.
          ((if b then set_node par (record (s.nodes par) { ctail = place }) s else s).nodes
            par).ctail)
        other,
)

-- `remove` then sets the first child of `par`.
abbrev pub with_head : ℕ → ℕ → Memfs → Memfs
with_head par head s = set_node par (record (s.nodes par) { clist = head }) s

pub tail_moved_root :
    (n par place : ℕ) (s : Memfs)
    → ((tail_moved n par place s).rootdir ≡ s.rootdir)
      × ((tail_moved n par place s).handles ≡ s.handles)
tail_moved_root n par place s = elim (Bool-cases ((s.nodes par).ctail == n)) [
  | inl e ↦ (rw e refl, rw e refl)
  | inr e ↦ (rw e refl, rw e refl)
]
