-- ===== src/Mounts/Table.antt =====
-- Adding to the mount table of src/mtab.c, also after its last entry was removed.
use boss.Prelude.{ℕ, ◌≡◌, refl, true, false, some, List, [], ◌∷◌, ◌++◌, ◌==◌, arith, pos}
use boss.Mounts.{Mount, Mtab, append_behind, mtab_add, remove_mount, mtab_remove_node}

-- No entry is at the address, and none is of the node.
abbrev pub Without : ℕ → ℕ → List Mount → Type 0
Without addr node [] = Unit
Without addr node (m ∷ ms) =
    ((m.addr == addr) ≡ false) × ((m.mpt == node) ≡ false) × Without addr node ms

append_behind-last :
    (m x : Mount) (ms : List Mount)
    → Without x.addr x.mpt ms
    → append_behind x.addr m (ms ++ x ∷ []) ≡ ms ++ x ∷ m ∷ []
unfolding append_behind
append_behind-last m x [] h = let self : (x.addr == x.addr) ≡ true = ground arith in rw self
append_behind-last m x (y ∷ ms) (a, n, h) = rw (a, append_behind-last m x ms h)

append_behind-lost :
    (addr node : ℕ) (m : Mount) (ms : List Mount)
    → Without addr node ms
    → append_behind addr m ms ≡ ms
unfolding append_behind
append_behind-lost addr node m [] h = refl
append_behind-lost addr node m (y ∷ ms) (a, n, h) = rw (a, append_behind-lost addr node m ms h)

remove_mount-last :
    (x : Mount) (ms : List Mount)
    → Without x.addr x.mpt ms
    → remove_mount x.mpt (ms ++ x ∷ []) ≡ some ms
unfolding remove_mount
remove_mount-last x [] h = let self : (x.mpt == x.mpt) ≡ true = ground arith in rw self
remove_mount-last x (y ∷ ms) (a, n, h) = rw (n, remove_mount-last x ms h)

abbrev pub new_mount : ℕ → ℕ → ℕ → Mount
new_mount addr node fs = record { addr = addr; mpt = node; fs = fs }

-- A table whose tail is its last entry, with at least one entry before it and none of them at its
-- address or for its node: a new entry goes behind the last one. But once the last entry has been
-- removed, the next one that is added is lost: the list has only the entries before it.
pub mtab_add-mtab_remove_node :
    (addr node fs : ℕ) (first x : Mount) (ms : List Mount) (t : Mtab)
    → Without x.addr x.mpt (first ∷ ms)
    → t.mnt_list ≡ (first ∷ ms) ++ x ∷ []
    → t.mnt_tail ≡ x.addr
    → ((mtab_add (some addr) node fs t).1.mnt_list
        ≡ (first ∷ ms) ++ x ∷ new_mount addr node fs ∷ [])
      × ((mtab_add (some addr) node fs (mtab_remove_node x.mpt t).1).1.mnt_list ≡ first ∷ ms)
unfolding mtab_add mtab_remove_node
mtab_add-mtab_remove_node addr node fs first x ms t h list tail =
    let gone : remove_mount x.mpt t.mnt_list ≡ some (first ∷ ms) =
      rw list (remove_mount-last x (first ∷ ms) h) in
    let removed : mtab_remove_node x.mpt t ≡ (pos 0, record t { mnt_list = first ∷ ms }) =
      rw (gone, mtab_remove_node) in
    (
      rw (list, tail) (append_behind-last (new_mount addr node fs) x (first ∷ ms) h),
      rw removed
          (rw tail (append_behind-lost x.addr x.mpt (new_mount addr node fs) (first ∷ ms) h)),
    )
