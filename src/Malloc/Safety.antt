-- ===== src/Malloc/Safety.antt =====
-- src/libc/malloc.c: `free` and `malloc` keep the invariant.
use boss.Prelude.{
  ℕ, ◌+◌, ◌-◌, ◌/◌, ◌≤◌, ◌≡◌, ◌≢◌, ◌∙◌, ap, inl, inr, true, false, Option, none, some, List, ◌∷◌,
  ◌==◌, ◌||◌, Bool-cases, Inserted, arith,
}
use boss.Pages.{Pages, is_free}
use boss.Pages.Alloc.{IsValid}
use boss.Malloc.{
  Block, block, Desc, desc, Heap, desc_size, magic_used, magic_free, put_desc, insert_free,
  clear_magic, free_block, free,
}
use boss.Malloc.Pool.{in_block, covers, Sorted, Apart, ApartAll}
use boss.Malloc.Insert.{insert_free-Freed, insert_free-ApartAll, insert_free-clear_magic}
use boss.Malloc.Merge.{Merged, insert_free-Merged}
use boss.Malloc.Live.{Backed, Owned, AllOwned, Disjoint, IsHeap, IsHeap-Inserted, AllOwned-map}

put_desc_other :
    (a : ℕ) (d : Desc) (descs : ℕ → Desc) (x : ℕ) → x ≢ a → put_desc a d descs x ≡ descs x
unfolding put_desc
put_desc_other a d descs x h = ground arith

put_desc_self : (a : ℕ) (d : Desc) (descs : ℕ → Desc) → put_desc a d descs a ≡ d
unfolding put_desc
put_desc_self a d descs = ground arith

addr_ne : (b c : Block) → desc_size ≤ b.size → desc_size ≤ c.size → Apart b c → b.addr ≢ c.addr
addr_ne b c p q h e = ground arith

-- Freeing the first of the blocks handed out.
pub free_block-IsHeap :
    (h : Heap) (b : Block) (live : List Block)
    → IsHeap h (b ∷ live)
    → IsHeap (free_block b.addr h) live
unfolding free_block
free_block-IsHeap h b live v =
    let o = v.owned.0 in
    let size : (h.descs b.addr).size ≡ b.size = ap (λ (d : Desc). d.size) o.descriptor in
    rw size (
      let freed = insert_free-Freed b h.pool o.size v.sorted o.apart in
      record {
        sorted = freed.sorted;
        backed = λ x c. elim (Bool-cases (in_block b x)) [
          | inl i ↦ o.backed x i
          | inr n ↦ v.backed x (ground (arith, freed.bytes x))
        ];
        pages = v.pages;
        owned =
            AllOwned-map live b
              (λ c apart oc. record {
                size = oc.size;
                descriptor =
                    insert_free-clear_magic c b h.pool
                      (put_desc b.addr (desc b.size magic_free) h.descs) oc.size o.size v.sorted
                      apart oc.apart
                    ∙ put_desc_other b.addr (desc b.size magic_free) h.descs c.addr
                        (addr_ne c b oc.size o.size apart)
                    ∙ oc.descriptor;
                apart = insert_free-ApartAll c b h.pool oc.size apart oc.apart;
                backed = oc.backed;
              })
              v.disjoint.0 v.owned.1;
        disjoint = v.disjoint.1;
      })

pub free-eq :
    (h : Heap) (a size : ℕ)
    → h.descs a ≡ desc size magic_used
    → free (a + desc_size) h ≡ some (free_block a h)
unfolding free
free-eq h a size e =
    let back : a + desc_size - desc_size ≡ a = omega arith in
    let not_null : (a + desc_size == 0) ≡ false = ground arith in
    let magic : (h.descs a).magic ≡ magic_used = ap (λ (d : Desc). d.magic) e in
    rw (not_null, back, magic)

-- A freed block has no valid magic, whether it was merged or not.
freed_magic :
    (m : Option ℕ) (a size : ℕ) (descs : ℕ → Desc)
    → ((clear_magic m (put_desc a (desc size magic_free) descs) a).magic == magic_used) ≡ false
unfolding clear_magic put_desc
freed_magic none a size descs = ground arith
freed_magic (some b) a size descs = ground arith

free_twice : (h : Heap) (a : ℕ) → free (a + desc_size) (free_block a h) ≡ none
unfolding free free_block
free_twice h a =
    let back : a + desc_size - desc_size ≡ a = omega arith in
    let not_null : (a + desc_size == 0) ≡ false = ground arith in
    rw (
      not_null,
      back,
      freed_magic (insert_free (block a (h.descs a).size) h.pool).1 a (h.descs a).size h.descs,
    )

free_block-bytes :
    (h : Heap) (b : Block) (live : List Block)
    → IsHeap h (b ∷ live)
    → (x : ℕ) → covers (free_block b.addr h).pool x ≡ (in_block b x || covers h.pool x)
unfolding free_block
free_block-bytes h b live v x =
    let size : (h.descs b.addr).size ≡ b.size = ap (λ (d : Desc). d.size) v.owned.0.descriptor in
    rw size ((insert_free-Freed b h.pool v.owned.0.size v.sorted v.owned.0.apart).bytes x)

free_block-Merged :
    (h : Heap) (b : Block) (live : List Block)
    → IsHeap h (b ∷ live)
    → Merged b h.pool (free_block b.addr h).pool
unfolding free_block
free_block-Merged h b live v =
    let size : (h.descs b.addr).size ≡ b.size = ap (λ (d : Desc). d.size) v.owned.0.descriptor in
    rw size (insert_free-Merged b h.pool v.owned.0.size v.sorted)

-- Freeing any of the blocks handed out succeeds: the others are still handed out and apart from one
-- another, the pool has the bytes of the block besides its own, in order, and freeing the same
-- pointer once more panics. The block becomes one with the block of the pool that begins at its end,
-- if there is one, and with the last block of the pool if that ends where it begins.
pub free-IsHeap :
    (h : Heap) (b : Block) (rest live : List Block)
    → Inserted b rest live
    → IsHeap h live
    → (h' : Heap) × (free (b.addr + desc_size) h ≡ some h')
      × IsHeap h' rest
      × ((x : ℕ) → covers h'.pool x ≡ (in_block b x || covers h.pool x))
      × Merged b h.pool h'.pool
      × (free (b.addr + desc_size) h' ≡ none)
free-IsHeap h b rest live i v =
    let w = IsHeap-Inserted i v in
    (
      free_block b.addr h,
      free-eq h b.addr b.size w.owned.0.descriptor,
      free_block-IsHeap h b rest w,
      free_block-bytes h b rest w,
      free_block-Merged h b rest w,
      free_twice h b.addr,
    )

-- How a call of `malloc` may end: with a block for the size asked, or with a null pointer, and then
-- `Lacking` holds.
abbrev pub IsAllocated : Type 0 → ℕ → List Block → Option (Option ℕ × Heap) → Type 0
IsAllocated Lacking total live none = ⊥
IsAllocated Lacking total live (some (none, h)) = IsHeap h live × Lacking
IsAllocated Lacking total live (some (some p, h)) =
    (desc_size ≤ p) × IsHeap h (block (p - desc_size) total ∷ live)

-- A block that lies apart from all that is handed out is handed out.
pub hand_out :
    (h : Heap) (a total : ℕ) (pool : List Block) (pages : Pages) (live : List Block)
    → desc_size ≤ total
    → Sorted 0 pool
    → ((x : ℕ) → covers pool x ≡ true → is_free pages (x / 4096) ≡ false)
    → IsValid pages
    → ApartAll (block a total) pool
    → Backed pages (block a total)
    → ApartAll (block a total) live
    → ((c : Block) → Owned h c → ApartAll c pool × Backed pages c)
    → AllOwned h live
    → Disjoint live
    → IsHeap
        (record { pool = pool; descs = put_desc a (desc total magic_used) h.descs; pages = pages })
        (block a total ∷ live)
hand_out h a total pool pages live p sorted backed valid apart own_backed own_apart others owned
      disjoint =
    record {
      sorted = sorted;
      backed = backed;
      pages = valid;
      owned = (
        record {
          size = p;
          descriptor = put_desc_self a (desc total magic_used) h.descs;
          apart = apart;
          backed = own_backed;
        },
        AllOwned-map live (block a total)
            (λ c ap oc. record {
              size = oc.size;
              descriptor =
                  put_desc_other a (desc total magic_used) h.descs c.addr
                    (addr_ne c (block a total) oc.size p ap)
                  ∙ oc.descriptor;
              apart = (others c oc).0;
              backed = (others c oc).1;
            })
            own_apart owned,
      );
      disjoint = (own_apart, disjoint);
    }
