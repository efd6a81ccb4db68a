-- ===== src/Mounts/Tests.antt =====
-- A mount table of src/mtab.c with two entries, and the theorem at it.
use boss.Prelude.{◌≡◌, refl, some, [], ◌∷◌, ◌++◌}
use boss.Mounts.{Mtab, mtab_add, mtab_remove_node}
use boss.Mounts.Table.{new_mount, mtab_add-mtab_remove_node}

abbrev mounted : Mtab
mounted = record {
  mnt_list = new_mount 16 1 1 ∷ new_mount 32 2 2 ∷ [];
  mnt_tail = 32;
  mnt_count = 2;
}

mtab_add-mtab_remove_node_example :
    ((mtab_add (some 48) 3 3 mounted).1.mnt_list
      ≡ (new_mount 16 1 1 ∷ []) ++ new_mount 32 2 2 ∷ new_mount 48 3 3 ∷ [])
    × ((mtab_add (some 48) 3 3 (mtab_remove_node 2 mounted).1).1.mnt_list ≡ new_mount 16 1 1 ∷ [])
mtab_add-mtab_remove_node_example =
    mtab_add-mtab_remove_node 48 3 3 (new_mount 16 1 1) (new_mount 32 2 2) [] mounted
      (refl, refl, tt) refl refl
