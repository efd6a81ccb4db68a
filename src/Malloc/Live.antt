-- ===== src/Malloc/Live.antt =====
-- src/libc/malloc.c: a heap with the blocks that have been handed out.
use boss.Prelude.{
  ℕ, ◌+◌, ◌/◌, ◌≤◌, ◌<◌, ◌≡◌, ◌∙◌, sym, inl, inr, true, false, List, [], ◌∷◌, Inserted, here, there,
  arith, max,
}
use mathlib.Core.Bool.{false≢true}
use native.Mathlib.Decide.{dec_le}
use boss.Pages.{Pages, is_free}
use boss.Pages.Alloc.{IsValid}
use boss.Malloc.{Block, desc, Heap, desc_size, magic_used}
use boss.Malloc.Pool.{in_block, covers, Sorted, Apart, ApartAll}

-- Every byte of the block lies in a used page.
abbrev pub Backed : Pages → Block → Type 0
Backed pages b = (x : ℕ) → in_block b x ≡ true → is_free pages (x / 4096) ≡ false

-- A block that has been handed out: its descriptor says so, and it lies apart from the pool.
pub record Owned (h : Heap) (b : Block) : Type 0 where
  pub size : desc_size ≤ b.size
  pub descriptor : h.descs b.addr ≡ desc b.size magic_used
  pub apart : ApartAll b h.pool
  pub backed : Backed h.pages b

abbrev pub AllOwned : Heap → List Block → Type 0
AllOwned h [] = Unit
AllOwned h (b ∷ bs) = Owned h b × AllOwned h bs

abbrev pub Disjoint : List Block → Type 0
Disjoint [] = Unit
Disjoint (b ∷ bs) = ApartAll b bs × Disjoint bs

-- The invariant: the pool is in order, and the blocks handed out lie apart from it and from one
-- another, all of them in used pages.
pub record IsHeap (h : Heap) (live : List Block) : Type 0 where
  pub sorted : Sorted 0 h.pool
  pub backed : (x : ℕ) → covers h.pool x ≡ true → is_free h.pages (x / 4096) ≡ false
  pub pages : IsValid h.pages
  pub owned : AllOwned h live
  pub disjoint : Disjoint live

pub Apart-sym : (b c : Block) → Apart b c → Apart c b
Apart-sym b c (inl p) = inr p
Apart-sym b c (inr p) = inl p

-- The blocks handed out may be listed in any order.
ApartAll-Inserted :
    (a : Block) {b : Block} {xs ys : List Block}
    → Inserted b xs ys
    → ApartAll a ys
    → Apart a b × ApartAll a xs
ApartAll-Inserted a here h = h
ApartAll-Inserted a (there i) h =
    let (first, rest) = ApartAll-Inserted a i h.1 in (first, (h.0, rest))

Disjoint-Inserted :
    {b : Block} {xs ys : List Block} → Inserted b xs ys → Disjoint ys → Disjoint (b ∷ xs)
Disjoint-Inserted here h = h
Disjoint-Inserted {b} (there {y} i) h =
    let (apart, rest) = Disjoint-Inserted i h.1 in
    let (first, others) = ApartAll-Inserted y i h.0 in
    ((Apart-sym y b first, apart), (others, rest))

AllOwned-Inserted :
    {h : Heap} {b : Block} {xs ys : List Block}
    → Inserted b xs ys
    → AllOwned h ys
    → AllOwned h (b ∷ xs)
AllOwned-Inserted here o = o
AllOwned-Inserted (there i) o = let (first, rest) = AllOwned-Inserted i o.1 in (first, (o.0, rest))

pub IsHeap-Inserted :
    {h : Heap} {b : Block} {xs ys : List Block} → Inserted b xs ys → IsHeap h ys → IsHeap h (b ∷ xs)
IsHeap-Inserted i v = record {
  sorted = v.sorted;
  backed = v.backed;
  pages = v.pages;
  owned = AllOwned-Inserted i v.owned;
  disjoint = Disjoint-Inserted i v.disjoint;
}

-- Blocks handed out in one heap are so in another, if that holds for each of them.
pub AllOwned-map :
    {h g : Heap} (live : List Block) (keep : Block)
    → ((b : Block) → Apart b keep → Owned h b → Owned g b)
    → ApartAll keep live
    → AllOwned h live
    → AllOwned g live
AllOwned-map [] keep f a o = tt
AllOwned-map (b ∷ bs) keep f a o = (f b (Apart-sym keep b a.0) o.0, AllOwned-map bs keep f a.1 o.1)

-- A block in used pages lies apart from one in free pages.
pub Apart-of_pages :
    (pages : Pages) (b f : Block)
    → desc_size ≤ b.size
    → 0 < f.size
    → Backed pages b
    → ((x : ℕ) → in_block f x ≡ true → is_free pages (x / 4096) ≡ true)
    → Apart b f
Apart-of_pages pages b f p q backed free = elim (dec_le (b.addr + b.size) f.addr) [
  | yes before ↦ inl before
  | no not_before ↦ elim (dec_le (f.addr + f.size) b.addr) [
    | yes behind ↦ inr behind
    | no not_behind ↦
        let x = max b.addr f.addr in
        let used = backed x (ground arith) in
        let not_used = free x (ground arith) in absurd (false≢true (sym used ∙ not_used))
  ]
]

-- So does the pool.
pub ApartAll-of_pages :
    (pages : Pages) (f : Block) (lo : ℕ) (pool : List Block)
    → 0 < f.size
    → Sorted lo pool
    → ((x : ℕ) → covers pool x ≡ true → is_free pages (x / 4096) ≡ false)
    → ((x : ℕ) → in_block f x ≡ true → is_free pages (x / 4096) ≡ true)
    → ApartAll f pool
ApartAll-of_pages pages f lo [] q s backed free = tt
ApartAll-of_pages pages f lo (b ∷ bs) q s backed free = (
  Apart-sym b f (Apart-of_pages pages b f s.1 q (λ x i. backed x (ground arith)) free),
  ApartAll-of_pages pages f (b.addr + b.size) bs q s.2 (λ x i. backed x (ground arith)) free,
)
