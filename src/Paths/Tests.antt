-- ===== src/Paths/Tests.antt =====
-- A path of src/fs.c, and the theorem at it.
use boss.Prelude.{◌≡◌, refl, ℕ, List, [], ◌∷◌}
use boss.Paths.{fs_path_skipsep, split_name, copy_name, fs_path_next}

abbrev name : List ℕ
name = b'a' ∷ b'b' ∷ []

-- "//ab/c" without room for more than one byte.
cut_name : fs_path_next (b'/' ∷ b'/' ∷ b'a' ∷ b'b' ∷ b'/' ∷ b'c' ∷ []) 2 ≡ (b'a' ∷ [], b'c' ∷ [])
unfolding fs_path_next fs_path_skipsep split_name copy_name
cut_name = refl
