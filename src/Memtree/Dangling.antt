-- ===== src/Memtree/Dangling.antt =====
-- `close` of src/fsmem.c leaves the node's pointer to the handle as it is.
use boss.Prelude.{
  ℕ, ◌≡◌, ◌≢◌, refl, ◌∙◌, ap, Bool, true, false, none, some, ◌==◌, if◌then◌else◌, arith,
}
use boss.Memtree.{MemNode, Memfs, mounted_on, create_fsnode, close, arrive, dangling}
use boss.Memtree.Linking.{update_here}

mounted_freed :
    (s : Memfs) (n h : ℕ)
    → (s.nodes n).fsnode ≡ h
    → h ≢ 0
    → s.handles h ≡ none
    → mounted_on s n ≡ none
unfolding mounted_on
mounted_freed s n h e ne freed =
    let some_handle : ((s.nodes n).fsnode == 0) ≡ false = ground (arith, e, ne) in
    let at = ap s.handles e ∙ freed in rw (some_handle, at) refl

arrive_freed :
    (s : Memfs) (n : ℕ) (excl : Bool) → mounted_on s n ≡ none → arrive excl n s ≡ dangling
unfolding arrive
arrive_freed s n excl e = rw (e, arrive) refl

-- Once the first handle on a node is closed, opening the node again reads the handle that was freed.
pub arrive-dangling :
    (s : Memfs) (n h : ℕ) (excl : Bool)
    → h ≢ 0
    → (s.nodes n).fsnode ≡ 0
    → arrive excl n (close h (create_fsnode (some h) true n s).1) ≡ dangling
unfolding create_fsnode close
arrive-dangling s n h excl ne e =
    let s' : Memfs = close h (create_fsnode (some h) true n s).1 in
    let unset : ((s.nodes n).fsnode == 0) ≡ true = ground (arith, e) in
    let at_n =
      update_here s.nodes n
        (if (s.nodes n).fsnode == 0 then record (s.nodes n) { fsnode = h } else s.nodes n) in
    let points : (s'.nodes n).fsnode ≡ h =
      ap (λ (x : MemNode). x.fsnode) at_n
      ∙ ap (λ b. (if b then record (s.nodes n) { fsnode = h } else s.nodes n).fsnode) unset in
    let freed : s'.handles h ≡ none =
      update_here (create_fsnode (some h) true n s).1.handles h none in
    arrive_freed s' n excl (mounted_freed s' n h points ne freed)
