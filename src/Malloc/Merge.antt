-- ===== src/Malloc/Merge.antt =====
-- src/libc/malloc.c: the blocks that `free` makes one.
use boss.Prelude.{ℕ, ◌+◌, ◌≤◌, ◌≡◌, Bool, true, false, List, [], ◌∷◌, ◌==◌, ◌&&◌, ◌||◌, arith}
use boss.Malloc.{Block, desc_size, insert_block, insert_free}
use boss.Malloc.Pool.{Sorted}

-- The block of a size at an address is one of the list.
abbrev pub has_block : ℕ → ℕ → List Block → Bool
has_block a n [] = false
has_block a n (b ∷ bs) = (b.addr == a && b.size == n) || has_block a n bs

-- It is the last one.
abbrev pub ends_with : ℕ → ℕ → List Block → Bool
ends_with a n [] = false
ends_with a n (b ∷ []) = b.addr == a && b.size == n
ends_with a n (b ∷ c ∷ cs) = ends_with a n (c ∷ cs)

-- A block of the pool that begins where the new one ends is one with it, and so is the last block of
-- the pool if it ends where the new one begins.
pub record Merged (mem : Block) (pool after : List Block) : Type 0 where
  pub behind :
      (n : ℕ)
      → has_block (mem.addr + mem.size) n pool ≡ true
      → has_block mem.addr (mem.size + n) after ≡ true
  pub at_end :
      (a n : ℕ)
      → ends_with a n pool ≡ true
      → a + n ≡ mem.addr
      → has_block a (n + mem.size) after ≡ true

has_block-from : (lo a n : ℕ) (bs : List Block) → Sorted lo bs → has_block a n bs ≡ true → lo ≤ a
has_block-from lo a n [] s h = absurd cc
has_block-from lo a n (b ∷ bs) s h = ground (arith, has_block-from (b.addr + b.size) a n bs s.2)

ends_with-from : (lo a n : ℕ) (bs : List Block) → Sorted lo bs → ends_with a n bs ≡ true → lo ≤ a
ends_with-from lo a n [] s h = absurd cc
ends_with-from lo a n (b ∷ []) s h = ground arith
ends_with-from lo a n (b ∷ c ∷ cs) s h =
    omega (arith, ends_with-from (b.addr + b.size) a n (c ∷ cs) s.2 h)

insert_block-behind :
    (lo n : ℕ) (mem cur : Block) (rest : List Block)
    → Sorted lo (cur ∷ rest)
    → has_block (mem.addr + mem.size) n (cur ∷ rest) ≡ true
    → has_block mem.addr (mem.size + n) (insert_block mem cur rest).0 ≡ true
unfolding insert_block
insert_block-behind lo n mem cur [] s h = ground arith
insert_block-behind lo n mem cur (next ∷ rest) s h = ground (
  arith,
  insert_block-behind (cur.addr + cur.size) n mem next rest s.2,
  has_block-from (cur.addr + cur.size) (mem.addr + mem.size) n (next ∷ rest) s.2,
)

insert_block-at_end :
    (lo a n : ℕ) (mem cur : Block) (rest : List Block)
    → desc_size ≤ mem.size
    → Sorted lo (cur ∷ rest)
    → ends_with a n (cur ∷ rest) ≡ true
    → a + n ≡ mem.addr
    → has_block a (n + mem.size) (insert_block mem cur rest).0 ≡ true
unfolding insert_block
insert_block-at_end lo a n mem cur [] m s h e = ground arith
insert_block-at_end lo a n mem cur (next ∷ rest) m s h e = ground (
  arith,
  insert_block-at_end (cur.addr + cur.size) a n mem next rest m s.2 h e,
  ends_with-from (cur.addr + cur.size) a n (next ∷ rest) s.2 h,
)

pub insert_free-Merged :
    (mem : Block) (pool : List Block)
    → desc_size ≤ mem.size
    → Sorted 0 pool
    → Merged mem pool (insert_free mem pool).0
unfolding insert_free
insert_free-Merged mem [] m s = record { behind = λ n h. absurd cc; at_end = λ a n h e. absurd cc }
insert_free-Merged mem (cur ∷ rest) m s = record {
  behind = λ n h. insert_block-behind 0 n mem cur rest s h;
  at_end = λ a n h e. insert_block-at_end 0 a n mem cur rest m s h e;
}
