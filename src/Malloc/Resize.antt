-- ===== src/Malloc/Resize.antt =====
-- src/libc/malloc.c: where `realloc` keeps a block.
use boss.Prelude.{
  ℕ, ◌+◌, ◌-◌, ◌≤◌, ◌<◌, ◌≡◌, ap, true, false, some, List, leb, ◌==◌, Inserted, arith,
}
use boss.Malloc.{Block, Desc, Heap, desc_size, realloc}
use boss.Malloc.Live.{IsHeap, IsHeap-Inserted}

-- For a block that has been handed out and a size that is larger than what the block holds behind
-- its descriptor by at most the size of a descriptor, `realloc` returns the block as it is: the
-- bytes asked for then reach past its end.
pub realloc_too_small :
    (h : Heap) (b : Block) (rest live : List Block) (size : ℕ)
    → Inserted b rest live
    → IsHeap h live
    → b.size < size + desc_size
    → size ≤ b.size
    → (realloc (b.addr + desc_size) size h ≡ some (some (b.addr + desc_size), h))
      × (b.addr + b.size < b.addr + desc_size + size)
unfolding realloc
realloc_too_small h b rest live size i v more fits =
    let o = (IsHeap-Inserted i v).owned.0 in
    let back : b.addr + desc_size - desc_size ≡ b.addr = omega arith in
    let not_null : (b.addr + desc_size == 0) ≡ false = ground arith in
    let held : (h.descs b.addr).size ≡ b.size = ap (λ (d : Desc). d.size) o.descriptor in
    let enough : leb size b.size ≡ true = ground arith in
    (rw (not_null, back, held, enough), omega arith)
