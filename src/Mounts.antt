-- ===== src/Mounts.antt =====
-- The table of mounted file systems, src/mtab.c. Nodes and file systems are numbers; each entry has
-- its address, so that `mnt_tail` can be the address of one that has been freed.
pub mod Table
mod Tests
use boss.Prelude.{
  ℕ, ◌+◌, Bool, true, false, Option, none, some, List, [], ◌∷◌, ◌==◌, if◌then◌else◌, ℤ, pos, negsuc,
}

pub record Mount : Type 0 where
  pub addr : ℕ
  pub mpt : ℕ
  pub fs : ℕ

pub record Mtab : Type 0 where
  pub mnt_list : List Mount
  pub mnt_tail : ℕ
  pub mnt_count : ℕ

-- `mnt_tail->next = m`, where `m` has no next entry.
pub append_behind : ℕ → Mount → List Mount → List Mount
append_behind tail m [] = []
append_behind tail m (x ∷ xs) =
    let rest = append_behind tail m xs in if x.addr == tail then x ∷ m ∷ [] else x ∷ rest

-- `mtab_add` with the outcome of `malloc`.
pub mtab_add : Option ℕ → ℕ → ℕ → Mtab → ℤ × Mtab
mtab_add none node fs t = (negsuc 0, t)
mtab_add (some addr) node fs t =
    let m : Mount = record { addr = addr; mpt = node; fs = fs } in
    (
      pos 0,
      record {
        mnt_list = elim t.mnt_list [ [] ↦ m ∷ [] | x ∷ xs ↦ append_behind t.mnt_tail m (x ∷ xs) ];
        mnt_tail = addr;
        mnt_count = t.mnt_count + 1;
      },
    )

-- The loop of `mtab_remove_node`: what is left where the node is found.
pub remove_mount : ℕ → List Mount → Option (List Mount)
remove_mount node [] = none
remove_mount node (m ∷ ms) =
    let rest = remove_mount node ms in
    if m.mpt == node then some ms else elim rest [ none ↦ none | some r ↦ some (m ∷ r) ]

-- `mtab_remove_node`, which changes neither the tail nor the count.
pub mtab_remove_node : ℕ → Mtab → ℤ × Mtab
mtab_remove_node node t = elim (remove_mount node t.mnt_list) [
  | none ↦ (negsuc 0, t)
  | some ms ↦ (pos 0, record t { mnt_list = ms })
]
