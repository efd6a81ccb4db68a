-- ===== src/Paths.antt =====
-- Paths of the file system layer, src/fs.c: taking the next name off a path.
pub mod Names
mod Tests
use boss.Prelude.{
  ℕ, suc, ◌-◌, Bool, true, false, List, [], ◌∷◌, length, take, leb, ◌==◌, if◌then◌else◌,
}

pub fs_path_skipsep : List ℕ → List ℕ
fs_path_skipsep [] = []
fs_path_skipsep (c ∷ s) = if c == b'/' then fs_path_skipsep s else c ∷ s

-- The loop to the end of the name: the name and what follows it.
pub split_name : List ℕ → List ℕ × List ℕ
split_name [] = ([], [])
split_name (c ∷ s) =
    let (name, rest) = split_name s in if c == b'/' then ([], c ∷ s) else (c ∷ name, rest)

-- The part of `fs_path_next` behind that loop, with a buffer: what is copied there, and the rest of
-- the path.
pub copy_name : ℕ → List ℕ × List ℕ → List ℕ × List ℕ
copy_name bufsz (name, rest) =
    let len = if leb bufsz (length name) then bufsz - 1 else length name in
    (take len name, fs_path_skipsep rest)

pub fs_path_next : List ℕ → ℕ → List ℕ × List ℕ
fs_path_next s bufsz = copy_name bufsz (split_name (fs_path_skipsep s))
