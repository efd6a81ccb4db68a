-- ===== src/Malloc/Allocate.antt =====
-- src/libc/malloc.c: `malloc` keeps the invariant.
use boss.Prelude.{
  ℕ, ◌+◌, ◌-◌, ◌*◌, ◌/◌, ◌%◌, ◌^◌, ◌≤◌, ◌<◌, ◌≡◌, ◌∙◌, inl, inr, Bool, true, false, Option, none,
  some, List, [], ◌∷◌, ◌==◌, if◌then◌else◌, Bool-cases, Option-cases, arith,
}
use boss.Pages.{Pages, is_free, all_free, alloc_ppages}
use boss.Pages.Range.{inside, all_free_sound}
use boss.Pages.Alloc.{IsValid, Allocated, alloc_ppages-Allocated}
use boss.Malloc.{
  Block, block, desc, Heap, desc_size, magic_used, put_desc, total_size, take_block, free,
  bytes_to_pages, split_pages, malloc,
}
use boss.Malloc.Pool.{in_block, Apart, ApartAll}
use boss.Malloc.Take.{Taken, take_block-IsTaken}
use boss.Malloc.Live.{Backed, Owned, AllOwned, IsHeap, Apart-sym, Apart-of_pages, ApartAll-of_pages}
use boss.Malloc.Safety.{hand_out, free-eq, free_block-IsHeap, IsAllocated}

ApartAll-of_Owned :
    (h : Heap) (f : Block) (live : List Block)
    → ((c : Block) → Owned h c → Apart f c)
    → AllOwned h live
    → ApartAll f live
ApartAll-of_Owned h f [] g o = tt
ApartAll-of_Owned h f (c ∷ cs) g o = (g c o.0, ApartAll-of_Owned h f cs g o.1)

-- A block of the pool is handed out.
from_pool :
    (total a : ℕ) (h : Heap) (live pool : List Block)
    → desc_size ≤ total
    → IsHeap h live
    → Taken 0 total h.pool a pool
    → IsHeap
        (record h { pool = pool; descs = put_desc a (desc total magic_used) h.descs })
        (block a total ∷ live)
from_pool total a h live pool p v t =
    let b = block a total in
    hand_out h a total pool h.pages live p t.sorted (λ x c. v.backed x (t.bytes x (ground arith)))
      v.pages t.apart (λ x i. v.backed x (t.bytes x (rw i)))
      (ApartAll-of_Owned h b live (λ c o. Apart-sym c b (t.others c o.apart).0) v.owned)
      (λ c o. ((t.others c o.apart).1, o.backed)) v.owned v.disjoint

-- More pages in use change nothing for the heap.
owned_pages :
    (h : Heap) (pages : Pages) (live : List Block)
    → ((q : ℕ) → is_free h.pages q ≡ false → is_free pages q ≡ false)
    → AllOwned h live
    → AllOwned (record h { pages = pages }) live
owned_pages h pages [] f o = tt
owned_pages h pages (c ∷ cs) f o = (
  record {
    size = o.0.size;
    descriptor = o.0.descriptor;
    apart = o.0.apart;
    backed = λ x i. f (x / 4096) (o.0.backed x i);
  },
  owned_pages h pages cs f o.1,
)

more_pages :
    (h : Heap) (pages : Pages) (live : List Block)
    → ((q : ℕ) → is_free h.pages q ≡ false → is_free pages q ≡ false)
    → IsValid pages
    → IsHeap h live
    → IsHeap (record h { pages = pages }) live
more_pages h pages live f valid v = record {
  sorted = v.sorted;
  backed = λ x c. f (x / 4096) (v.backed x c);
  pages = valid;
  owned = owned_pages h pages live f v.owned;
  disjoint = v.disjoint;
}

-- A part of a block is apart from what the whole is apart from.
part_apart :
    (b f : Block) (cs : List Block)
    → f.addr ≤ b.addr
    → b.addr + b.size ≤ f.addr + f.size
    → ApartAll f cs
    → ApartAll b cs
part_apart b f [] p q a = tt
part_apart b f (c ∷ cs) p q a = (ground arith, part_apart b f cs p q a.1)

-- A part of fresh pages is handed out.
hand_out_part :
    (h : Heap) (a total : ℕ) (f : Block) (live : List Block)
    → desc_size ≤ total
    → f.addr ≤ a
    → a + total ≤ f.addr + f.size
    → IsHeap h live
    → ApartAll f h.pool
    → Backed h.pages f
    → ApartAll (block a total) live
    → IsHeap
        (record h { descs = put_desc a (desc total magic_used) h.descs })
        (block a total ∷ live)
hand_out_part h a total f live p lo hi v apart backed others =
    hand_out h a total h.pool h.pages live p v.sorted v.backed v.pages
      (part_apart (block a total) f h.pool lo hi apart) (λ x i. backed x (ground arith)) others
      (λ c o. (o.apart, o.backed)) v.owned v.disjoint

-- Every block of the pool is smaller.
abbrev pub AllBelow : ℕ → List Block → Type 0
AllBelow total [] = Unit
AllBelow total (b ∷ bs) = (b.size < total) × AllBelow total bs

-- No run of free pages in the bitmap.
abbrev pub NoRun : ℕ → Pages → Type 0
NoRun npages s = (q : ℕ) → q / 32 < s.bmsize / 4 → all_free s q npages ≡ false

take_block-AllBelow :
    (total : ℕ) (pool : List Block)
    → total + 4096 < 2 ^ 32
    → take_block total pool ≡ none
    → AllBelow total pool
unfolding take_block
take_block-AllBelow total [] small e = tt
take_block-AllBelow total (b ∷ bs) small e = ground (arith, take_block-AllBelow total bs small)

-- Fresh pages are split into the block asked for and a rest, which goes to the pool.
split_pages-IsAllocated :
    (Lacking : Type 0) (total npages pg : ℕ) (h : Heap) (live : List Block)
    → desc_size ≤ total
    → npages ≡ (total + 4095) / 4096
    → total % 4096 ≤ 4096 - desc_size
    → total + 4096 < 2 ^ 32
    → pg < 2 ^ 20
    → IsHeap h live
    → ApartAll (block (pg * 4096) (npages * 4096)) h.pool
    → Backed h.pages (block (pg * 4096) (npages * 4096))
    → ApartAll (block (pg * 4096) (npages * 4096)) live
    → IsAllocated Lacking total live (split_pages total npages pg h)
unfolding split_pages
split_pages-IsAllocated Lacking total npages pg h live p n fits small page v apart backed others =
    let f = block (pg * 4096) (npages * 4096) in
    let mem : pg * 4096 % 2 ^ 32 ≡ pg * 4096 = omega arith in
    let rest : (npages * 4096 + 2 ^ 32 - total) % 2 ^ 32 ≡ npages * 4096 - total = omega arith in
    let m = block (pg * 4096) total in
    let m_apart = part_apart m f live (omega arith) (omega arith) others in
    let h1 = record h { descs = put_desc (pg * 4096) (desc total magic_used) h.descs } in
    let v1 : IsHeap h1 (m ∷ live) =
      hand_out_part h (pg * 4096) total f live p (omega arith) (omega arith) v apart backed
        m_apart in
    let back : pg * 4096 + desc_size - desc_size ≡ pg * 4096 = omega arith in
    let size = npages * 4096 - total in
    let r = block (pg * 4096 + total) size in
    elim (Bool-cases (size == 0)) [
      | inl none_left ↦ rw (mem, rest, none_left, back) (omega arith, v1)
      | inr some_left ↦
          let room : desc_size ≤ size = ground arith in
          let r_apart : ApartAll r (m ∷ live) =
            (inr (omega arith), part_apart r f live (omega arith) (omega arith) others) in
          let v2 =
            hand_out_part h1 (pg * 4096 + total) size f (m ∷ live) room (omega arith) (omega arith)
              v1 apart backed r_apart in
          let h2 = record h1 {
            descs = put_desc (pg * 4096 + total) (desc size magic_used) h1.descs;
          } in
          rw
            (
              mem,
              rest,
              some_left,
              free-eq h2 (pg * 4096 + total) size v2.owned.0.descriptor,
              mem,
              back,
            )
            (omega arith, free_block-IsHeap h2 r (m ∷ live) v2)
    ]

still_used : (b free : Bool) → free ≡ false → (if b then false else free) ≡ false
still_used b free f = ground arith

-- The pages that `alloc_ppages` has found.
with_pages :
    (Lacking : Type 0) (total npages : ℕ) (h : Heap) (live : List Block) (r : Option ℕ × Pages)
    → (NoRun npages h.pages → Lacking)
    → desc_size ≤ total
    → npages ≡ (total + 4095) / 4096
    → total % 4096 ≤ 4096 - desc_size
    → total + 4096 < 2 ^ 32
    → IsHeap h live
    → Allocated npages h.pages r
    → IsValid r.1
    → IsAllocated Lacking total live (elim r.0 [
      | none ↦ some (none, record h { pages = r.1 })
      | some pg ↦ split_pages total npages pg (record h { pages = r.1 })
    ])
with_pages Lacking total npages h live (none, t) lacks p n fits small v failed valid =
    (more_pages h t live (λ q u. failed.pages q ∙ u) valid v, lacks failed.none_free)
with_pages Lacking total npages h live (some pg, t) lacks p n fits small v (took, low) valid =
    let f = block (pg * 4096) (npages * 4096) in
    let pages_of : (x : ℕ) → in_block f x ≡ true → inside pg npages (x / 4096) ≡ true =
      λ x i. ground arith in
    let free : (x : ℕ) → in_block f x ≡ true → is_free h.pages (x / 4096) ≡ true =
      λ x i. all_free_sound h.pages pg npages (x / 4096) took.run (pages_of x i) in
    let used : (q : ℕ) → is_free h.pages q ≡ false → is_free t q ≡ false =
      λ q u. took.pages q ∙ still_used (inside pg npages q) (is_free h.pages q) u in
    let some_page : 0 < npages * 4096 = omega arith in
    split_pages-IsAllocated Lacking total npages pg (record h { pages = t }) live p n fits small
      (omega (arith, low, v.pages.in_memory)) (more_pages h t live used valid v)
      (ApartAll-of_pages h.pages f 0 h.pool some_page v.sorted v.backed free)
      (λ x i. took.pages (x / 4096) ∙ rw (pages_of x i))
      (ApartAll-of_Owned h f live
        (λ c o. Apart-sym c f (Apart-of_pages h.pages c f o.size some_page o.backed free)) v.owned)

total_size_bounds :
    (sz : ℕ)
    → sz + 8192 < 2 ^ 32
    → (sz + desc_size ≤ total_size sz) × (total_size sz + 4097 < 2 ^ 32)
unfolding total_size
total_size_bounds sz h = omega arith

bytes_to_pages_lem : (x : ℕ) → x + 4095 < 2 ^ 32 → bytes_to_pages x ≡ (x + 4095) / 4096
unfolding bytes_to_pages
bytes_to_pages_lem x h = omega arith

-- For a size that is below 4 GB by 8192 bytes, and with its descriptor does not leave 4 or 8 bytes of
-- its last page, `malloc` does not panic. Either it hands out one more block, which has room for the
-- size asked behind its descriptor and lies apart from the pool and from every other block; or it
-- returns null, the blocks handed out are as before, and every block of the pool is too small and no
-- run of free pages is long enough. The invariant holds again.
pub malloc-IsAllocated :
    (sz : ℕ) (h : Heap) (live : List Block)
    → sz + 8192 < 2 ^ 32
    → total_size sz % 4096 ≤ 4096 - desc_size
    → IsHeap h live
    → IsAllocated
        (AllBelow (total_size sz) h.pool × NoRun ((total_size sz + 4095) / 4096) h.pages)
        (total_size sz)
        live
        (malloc sz h)
      × (sz + desc_size ≤ total_size sz)
unfolding malloc
malloc-IsAllocated sz h live small fits v =
    let total = total_size sz in
    let npages = bytes_to_pages total in
    let (room, low) = total_size_bounds sz small in
    let big : desc_size ≤ total = omega (arith, room) in
    elim (Option-cases (take_block total h.pool)) [
      | inr ((a, pool), e) ↦
          let taken = take_block-IsTaken 0 total h.pool (omega (arith, low)) v.sorted in
          let t : Taken 0 total h.pool a pool = rw e at taken in
          let back : a + desc_size - desc_size ≡ a = omega arith in
          (rw (e, malloc, back) (omega arith, from_pool total a h live pool big v t), room)
      | inl none_fits ↦
          let n : npages ≡ (total + 4095) / 4096 = bytes_to_pages_lem total (omega (arith, low)) in
          let lacks : NoRun npages h.pages
              → AllBelow total h.pool × NoRun ((total + 4095) / 4096) h.pages =
            λ r. (take_block-AllBelow total h.pool (omega (arith, low)) none_fits, rw n at r) in
          let (al, valid, flag) =
            alloc_ppages-Allocated npages h.pages (omega (arith, n, big)) v.pages false in
          (
            rw (none_fits, malloc)
                (with_pages _ total npages h live (alloc_ppages npages false h.pages) lacks big n
                  fits (omega (arith, low)) v al valid),
            room,
          )
    ]
