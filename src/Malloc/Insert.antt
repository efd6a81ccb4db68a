-- ===== src/Malloc/Insert.antt =====
-- src/libc/malloc.c: what `free` does to the pool.
use boss.Prelude.{ℕ, ◌+◌, ◌≤◌, ◌≡◌, refl, List, [], ◌∷◌, ◌||◌, arith}
use boss.Malloc.{Block, desc_size, insert_block, insert_free, Desc, clear_magic, put_desc}
use boss.Malloc.Pool.{in_block, covers, Sorted, Apart, ApartAll}

insert_block-Sorted :
    (lo : ℕ) (mem cur : Block) (rest : List Block)
    → lo ≤ mem.addr
    → desc_size ≤ mem.size
    → Sorted lo (cur ∷ rest)
    → ApartAll mem (cur ∷ rest)
    → Sorted lo (insert_block mem cur rest).0
unfolding insert_block
insert_block-Sorted lo mem cur [] l m s a = ground arith
insert_block-Sorted lo mem cur (next ∷ rest) l m s a =
    ground (arith, insert_block-Sorted (cur.addr + cur.size) mem next rest)

insert_block-covers :
    (x lo : ℕ) (mem cur : Block) (rest : List Block)
    → desc_size ≤ mem.size
    → Sorted lo (cur ∷ rest)
    → ApartAll mem (cur ∷ rest)
    → covers (insert_block mem cur rest).0 x ≡ (in_block mem x || covers (cur ∷ rest) x)
unfolding insert_block
insert_block-covers x lo mem cur [] m s a = ground arith
insert_block-covers x lo mem cur (next ∷ rest) m s a =
    ground (arith, insert_block-covers x (cur.addr + cur.size) mem next rest)

-- A block apart from all stays apart from the pool.
insert_block-ApartAll :
    (b mem cur : Block) (rest : List Block)
    → desc_size ≤ b.size
    → Apart b mem
    → ApartAll b (cur ∷ rest)
    → ApartAll b (insert_block mem cur rest).0
unfolding insert_block
insert_block-ApartAll b mem cur [] p h a = ground arith
insert_block-ApartAll b mem cur (next ∷ rest) p h a =
    ground (arith, insert_block-ApartAll b mem next rest)

-- The descriptor of a block apart from all is left alone.
insert_block-clear_magic :
    (b mem cur : Block) (rest : List Block) (lo : ℕ) (descs : ℕ → Desc)
    → desc_size ≤ b.size
    → desc_size ≤ mem.size
    → Sorted lo (cur ∷ rest)
    → Apart b mem
    → ApartAll b (cur ∷ rest)
    → clear_magic (insert_block mem cur rest).1 descs b.addr ≡ descs b.addr
unfolding insert_block clear_magic put_desc
insert_block-clear_magic b mem cur [] lo descs p q s h a = ground arith
insert_block-clear_magic b mem cur (next ∷ rest) lo descs p q s h a =
    ground (arith, insert_block-clear_magic b mem next rest (cur.addr + cur.size) descs)

-- The pool that `free` leaves holds the block's bytes besides its own, in order.
pub record Freed (mem : Block) (pool after : List Block) : Type 0 where
  pub sorted : Sorted 0 after
  pub bytes : (x : ℕ) → covers after x ≡ (in_block mem x || covers pool x)

pub insert_free-Freed :
    (mem : Block) (pool : List Block)
    → desc_size ≤ mem.size
    → Sorted 0 pool
    → ApartAll mem pool
    → Freed mem pool (insert_free mem pool).0
unfolding insert_free
insert_free-Freed mem [] m s a = record { sorted = (omega arith, m, tt); bytes = λ x. refl }
insert_free-Freed mem (cur ∷ rest) m s a = record {
  sorted = insert_block-Sorted 0 mem cur rest (omega arith) m s a;
  bytes = λ x. insert_block-covers x 0 mem cur rest m s a;
}

pub insert_free-ApartAll :
    (b mem : Block) (pool : List Block)
    → desc_size ≤ b.size
    → Apart b mem
    → ApartAll b pool
    → ApartAll b (insert_free mem pool).0
unfolding insert_free
insert_free-ApartAll b mem [] p h a = (h, tt)
insert_free-ApartAll b mem (cur ∷ rest) p h a = insert_block-ApartAll b mem cur rest p h a

pub insert_free-clear_magic :
    (b mem : Block) (pool : List Block) (descs : ℕ → Desc)
    → desc_size ≤ b.size
    → desc_size ≤ mem.size
    → Sorted 0 pool
    → Apart b mem
    → ApartAll b pool
    → clear_magic (insert_free mem pool).1 descs b.addr ≡ descs b.addr
unfolding insert_free clear_magic
insert_free-clear_magic b mem [] descs p q s h a = refl
insert_free-clear_magic b mem (cur ∷ rest) descs p q s h a =
    insert_block-clear_magic b mem cur rest 0 descs p q s h a
