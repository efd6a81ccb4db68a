-- ===== src/Malloc.antt =====
-- src/libc/malloc.c, as it is built: one pool of free blocks in the order of their addresses, which
-- takes fresh pages from the allocator of src/mem.c. A block begins with its descriptor, and a
-- pointer handed out is the address behind that. Sizes and addresses are 32 bits wide; the bytes
-- behind the descriptors are not modelled.
pub mod Pool
pub mod Insert
pub mod Merge
pub mod Take
pub mod Live
pub mod Safety
pub mod Allocate
pub mod Resize
mod Tests
use boss.Pages.{Pages, alloc_ppages}
use boss.Prelude.{
  ℕ, zero, suc, ◌+◌, ◌-◌, ◌*◌, ◌/◌, ◌%◌, ◌^◌, Bool, true, false, Option, none, some, List, [], ◌∷◌,
  ltb, leb, ◌==◌, ◌&&◌, not, if◌then◌else◌,
}

-- `sizeof(struct mem_desc)`
abbrev pub desc_size : ℕ
desc_size = 12

abbrev pub magic_used : ℕ
magic_used = 0xdeadf00d

abbrev pub magic_free : ℕ
magic_free = 0x1ee7d00d

-- A block in the pool: where its descriptor stands, and `size`.
pub record Block : Type 0 where
  pub addr : ℕ
  pub size : ℕ

abbrev pub block : ℕ → ℕ → Block
block a n = record { addr = a; size = n }

-- The fields of the descriptor at an address.
pub record Desc : Type 0 where
  pub size : ℕ
  pub magic : ℕ

abbrev pub desc : ℕ → ℕ → Desc
desc n m = record { size = n; magic = m }

pub record Heap : Type 0 where
  pub pool : List Block
  pub descs : ℕ → Desc
  pub pages : Pages

pub put_desc : ℕ → Desc → (ℕ → Desc) → ℕ → Desc
put_desc a d descs x = if x == a then d else descs x

-- `total_sz`: the descriptor added, rounded up to 4 bytes.
pub total_size : ℕ → ℕ
total_size sz = (sz + desc_size + 3) % 2 ^ 32 / 4 * 4

-- The search of `malloc` through the pool: the address found, and the pool that is left.
pub take_block : ℕ → List Block → Option (ℕ × List Block)
take_block total [] = none
take_block total (b ∷ bs) =
    let rest = take_block total bs in
    if leb total b.size && ltb b.size ((total + 2 * desc_size) % 2 ^ 32)
    then some (b.addr, bs)
    else if ltb total b.size
    then some (b.addr + b.size - total, block b.addr (b.size - total) ∷ bs)
    else elim rest [ none ↦ none | some (a, bs') ↦ some (a, b ∷ bs') ]

-- The loop of `free` from the block `cur` of the pool on: what follows in the pool, and the block
-- that has been merged with another, since its magic is cleared.
pub insert_block : Block → Block → List Block → List Block × Option ℕ
insert_block mem cur [] =
    if cur.addr == mem.addr + mem.size
    then (block mem.addr (mem.size + cur.size) ∷ [], some cur.addr)
    else if ltb (mem.addr + mem.size) cur.addr
    then (mem ∷ cur ∷ [], none)
    else if cur.addr + cur.size == mem.addr
    then (block cur.addr (cur.size + mem.size) ∷ [], some mem.addr)
    else (cur ∷ mem ∷ [], none)
insert_block mem cur (next ∷ rest) =
    let (after, merged) = insert_block mem next rest in
    if cur.addr == mem.addr + mem.size
    then (block mem.addr (mem.size + cur.size) ∷ next ∷ rest, some cur.addr)
    else if ltb (mem.addr + mem.size) cur.addr
    then (mem ∷ cur ∷ next ∷ rest, none)
    else (cur ∷ after, merged)

pub insert_free : Block → List Block → List Block × Option ℕ
insert_free mem [] = (mem ∷ [], none)
insert_free mem (cur ∷ rest) = insert_block mem cur rest

-- `magic = 0` at a merged block.
pub clear_magic : Option ℕ → (ℕ → Desc) → ℕ → Desc
clear_magic none descs = descs
clear_magic (some a) descs = put_desc a (desc (descs a).size 0) descs

-- `free` of the block at `mem`, once its magic has been checked.
pub free_block : ℕ → Heap → Heap
free_block mem h =
    let size = (h.descs mem).size in
    let (pool, merged) = insert_free (block mem size) h.pool in
    record h {
      pool = pool;
      descs = clear_magic merged (put_desc mem (desc size magic_free) h.descs);
    }

-- `none` is a panic: a double free or a wrong magic.
pub free : ℕ → Heap → Option Heap
free p h =
    if p == 0
    then some h
    else if (h.descs (p - desc_size)).magic == magic_used
    then some (free_block (p - desc_size) h)
    else none

-- `BYTES_TO_PAGES`
pub bytes_to_pages : ℕ → ℕ
bytes_to_pages x = (x + 4095) % 2 ^ 32 / 4096

-- The end of `malloc`, with the first page of `npages` fresh ones.
pub split_pages : ℕ → ℕ → ℕ → Heap → Option (Option ℕ × Heap)
split_pages total npages pg h =
    let mem = pg * 4096 % 2 ^ 32 in
    let rest_sz = (npages * 4096 + 2 ^ 32 - total) % 2 ^ 32 in
    let h1 = record h { descs = put_desc mem (desc total magic_used) h.descs } in
    if rest_sz == 0
    then some (some (mem + desc_size), h1)
    else let h2 = record h1 { descs = put_desc (mem + total) (desc rest_sz magic_used) h1.descs } in
      elim (free (mem + total + desc_size) h2) [
        | none ↦ none
        | some h3 ↦ some (some (mem + desc_size), h3)
      ]

-- `malloc`: the outer `none` is a panic, the inner one a null pointer.
pub malloc : ℕ → Heap → Option (Option ℕ × Heap)
malloc sz h =
    let total = total_size sz in
    elim (take_block total h.pool) [
      | some (a, pool) ↦ some (
        some (a + desc_size),
        record h { pool = pool; descs = put_desc a (desc total magic_used) h.descs },
      )
      | none ↦
          let npages = bytes_to_pages total in
          let (found, pages) = alloc_ppages npages false h.pages in
          elim found [
            | none ↦ some (none, record h { pages = pages })
            | some pg ↦ split_pages total npages pg (record h { pages = pages })
          ]
    ]

-- `calloc`, without the bytes that it clears.
pub calloc : ℕ → ℕ → Heap → Option (Option ℕ × Heap)
calloc num size h = malloc (num * size % 2 ^ 32) h

-- `realloc`, without the bytes that it copies.
pub realloc : ℕ → ℕ → Heap → Option (Option ℕ × Heap)
realloc ptr size h =
    if ptr == 0
    then malloc size h
    else if leb size (h.descs (ptr - desc_size)).size
    then some (some ptr, h)
    else elim (malloc size h) [
      | none ↦ none
      | some (none, h1) ↦ some (none, h1)
      | some (some newp, h1) ↦ elim (free ptr h1) [ none ↦ none | some h2 ↦ some (some newp, h2) ]
    ]
