-- ===== src/Malloc/Pool.antt =====
-- src/libc/malloc.c: the pool as a set of bytes, and its order.
use boss.Prelude.{ℕ, ◌+◌, ◌≤◌, ◌⊎◌, inl, Bool, false, List, [], ◌∷◌, ltb, leb, ◌&&◌, ◌||◌, arith}
use boss.Malloc.{Block, desc_size}

abbrev pub in_block : Block → ℕ → Bool
in_block b x = leb b.addr x && ltb x (b.addr + b.size)

-- The byte at `x` belongs to a block of the pool.
abbrev pub covers : List Block → ℕ → Bool
covers [] x = false
covers (b ∷ bs) x = in_block b x || covers bs x

-- From `lo` on the blocks stand in the order of their addresses, apart from one another, and each
-- has room for its own descriptor.
abbrev pub Sorted : ℕ → List Block → Type 0
Sorted lo [] = Unit
Sorted lo (b ∷ bs) = (lo ≤ b.addr) × (desc_size ≤ b.size) × Sorted (b.addr + b.size) bs

-- The blocks have no byte in common.
abbrev pub Apart : Block → Block → Type 0
Apart b c = (b.addr + b.size ≤ c.addr) ⊎ (c.addr + c.size ≤ b.addr)

abbrev pub ApartAll : Block → List Block → Type 0
ApartAll b [] = Unit
ApartAll b (c ∷ cs) = Apart b c × ApartAll b cs

pub Sorted-weaken : (a b : ℕ) (bs : List Block) → a ≤ b → Sorted b bs → Sorted a bs
Sorted-weaken a b [] h s = tt
Sorted-weaken a b (c ∷ cs) h s = (omega arith, s.1, s.2)

-- A block that ends before the pool begins.
pub ApartAll-of_before :
    (b : Block) (lo : ℕ) (bs : List Block) → b.addr + b.size ≤ lo → Sorted lo bs → ApartAll b bs
ApartAll-of_before b lo [] h s = tt
ApartAll-of_before b lo (c ∷ cs) h s =
    (inl (omega (arith, s.0)), ApartAll-of_before b (c.addr + c.size) cs (omega (arith, s.0)) s.2)
