-- ===== src/Malloc/Tests.antt =====
-- The allocator of src/libc/malloc.c on a small heap, and the theorems at it.
use boss.Prelude.{
  ℕ, ◌+◌, ◌-◌, ◌/◌, ◌%◌, ◌^◌, ◌≤◌, ◌<◌, ◌≡◌, refl, Bool, true, false, none, some, [], ◌∷◌, ◌==◌,
  ◌||◌, if◌then◌else◌, here, there, all_below, all_below_sound, ◌∙◌, arith,
}
use boss.Bits.{bit}
use boss.Pages.{Pages, is_free}
use boss.Pages.Alloc.{IsValid}
use boss.Pages.Marks.{is_free-bit}
use boss.Malloc.{
  Block, block, desc, Heap, magic_used, total_size, free, malloc, take_block, insert_free,
  insert_block,
}
use boss.Malloc.Pool.{in_block, covers}
use boss.Malloc.Merge.{Merged}
use boss.Malloc.Live.{IsHeap}
use boss.Malloc.Safety.{free-IsHeap, IsAllocated}
use boss.Malloc.Allocate.{AllBelow, NoRun, malloc-IsAllocated}

-- One word of pages, all used but the last.
abbrev pages : Pages
pages = record { bitmap = λ i. 2 ^ 31 - 1; bmsize = 4; last_alloc_idx = 0; intr = true }

-- Two blocks handed out around a free one.
abbrev first : Block
first = block 4096 64

abbrev second : Block
second = block 4224 32

abbrev heap : Heap
heap = record {
  pool = block 4160 64 ∷ block 4256 100 ∷ [];
  descs = λ x.
      if x == 4096 then desc 64 magic_used else if x == 4224 then desc 32 magic_used else desc 0 0;
  pages = pages;
}

-- A block merges with the one behind it, and not with the one before it.
free_merges : (insert_free second heap.pool).0 ≡ block 4160 64 ∷ block 4224 132 ∷ []
unfolding insert_free insert_block
free_merges = refl

takes_upper_part : take_block 36 heap.pool ≡ some (4188, block 4160 28 ∷ block 4256 100 ∷ [])
unfolding take_block
takes_upper_part = refl

low_row : ℕ → Bool
low_row q = bit (2 ^ 31 - 1) (q % 32) == 1

low_table : all_below 31 low_row ≡ true
unfolding all_below low_row bit
low_table = refl

low_page : (q : ℕ) → q < 31 → is_free pages q ≡ false
unfolding low_row
low_page q h = is_free-bit pages q ∙ ground (arith, all_below_sound 31 low_row q h low_table)

pages-IsValid : IsValid pages
pages-IsValid = record {
  some_word = omega arith;
  in_memory = omega arith;
  whole_words = refl;
  low = omega arith;
  full = λ q b. absurd (omega arith);
}

heap-IsHeap : IsHeap heap (first ∷ second ∷ [])
heap-IsHeap = record {
  sorted = omega arith;
  backed = λ x c. low_page (x / 4096) (ground arith);
  pages = pages-IsValid;
  owned = (
    record {
      size = omega arith;
      descriptor = refl;
      apart = omega arith;
      backed = λ x i. low_page (x / 4096) (ground arith);
    },
    (
      record {
        size = omega arith;
        descriptor = refl;
        apart = omega arith;
        backed = λ x i. low_page (x / 4096) (ground arith);
      },
      tt,
    ),
  );
  disjoint = omega arith;
}

free-IsHeap_example :
    (h' : Heap) × (free 4236 heap ≡ some h')
    × IsHeap h' (first ∷ [])
    × ((x : ℕ) → covers h'.pool x ≡ (in_block second x || covers heap.pool x))
    × Merged second heap.pool h'.pool
    × (free 4236 h' ≡ none)
free-IsHeap_example =
    free-IsHeap heap second (first ∷ []) (first ∷ second ∷ []) (there here) heap-IsHeap

malloc-IsAllocated_example :
    IsAllocated
      (AllBelow (total_size 20) heap.pool × NoRun ((total_size 20 + 4095) / 4096) heap.pages)
      (total_size 20)
      (first ∷ second ∷ [])
      (malloc 20 heap)
    × (32 ≤ total_size 20)
unfolding total_size
malloc-IsAllocated_example =
    malloc-IsAllocated 20 heap (first ∷ second ∷ []) (omega arith) (omega arith) heap-IsHeap
