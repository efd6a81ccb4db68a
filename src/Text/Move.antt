-- ===== src/Text/Move.antt =====
-- src/libc/string.c: `memmove` copies, also where source and destination overlap.
use boss.Prelude.{
  ℕ, zero, suc, ◌+◌, ◌-◌, ◌≤◌, ◌<◌, ◌≡◌, inl, inr, ltb, leb, ◌&&◌, Bool-cases, if◌then◌else◌, arith,
}
use boss.Text.{store, copy_forward, copy_backward, memmove}

-- The memory after a copy of `n` bytes.
abbrev pub moved : ℕ → ℕ → ℕ → (ℕ → ℕ) → ℕ → ℕ
moved dest src n mem x = if leb dest x && ltb x (dest + n) then mem (src + (x - dest)) else mem x

forward-moved :
    (dest src n : ℕ) (mem : ℕ → ℕ) (x : ℕ)
    → dest ≤ src
    → copy_forward dest src n mem x ≡ moved dest src n mem x
unfolding copy_forward
forward-moved dest src zero mem x h = ground arith
forward-moved dest src (suc n) mem x h =
    ground (arith, forward-moved (dest + 1) (src + 1) n (store mem dest (mem src)) x)

backward-moved :
    (dest src n : ℕ) (mem : ℕ → ℕ) (x : ℕ)
    → src < dest
    → copy_backward dest src n mem x ≡ moved dest src n mem x
unfolding copy_backward
backward-moved dest src zero mem x h = ground arith
backward-moved dest src (suc n) mem x h =
    ground (arith, backward-moved dest src n (store mem (dest + n) (mem (src + n))) x)

-- After `memmove` the bytes at the destination are those that were at the source before, in their
-- order, and all other bytes are as they were, however the two ranges overlap.
pub memmove-moved :
    (dest src n : ℕ) (mem : ℕ → ℕ) (x : ℕ) → memmove dest src n mem x ≡ moved dest src n mem x
unfolding memmove
memmove-moved dest src n mem x = elim (Bool-cases (leb dest src)) [
  | inl up ↦ rw up (forward-moved dest src n mem x (ground arith))
  | inr down ↦ rw down (backward-moved dest src n mem x (ground arith))
]
