-- ===== src/Pages/Tests.antt =====
-- The allocator of src/mem.c on a small bitmap, and the theorems at such inputs.
use boss.Prelude.{ℕ, ◌-◌, ◌^◌, ◌≡◌, refl, true, false, none, some, ◌==◌, if◌then◌else◌, arith}
use boss.Pages.{
  Pages, is_free, all_free, alloc_ppage_range, note_free, try_pages, try_words, alloc_ppages,
  free_ppages,
}
use boss.Pages.Search.{full_word}
use boss.Pages.Alloc.{IsValid, Allocated, alloc_ppages-Allocated}
use boss.Pages.Free.{free_ppages-alloc_ppages}

-- Two words: the first is full, the second has its pages 32, 33 and 36 to 63 free.
abbrev small : Pages
small = record {
  bitmap = λ i. if i == 1 then 12 else 2 ^ 32 - 1;
  bmsize = 8;
  last_alloc_idx = 1;
  intr = true;
}

finds_three : (alloc_ppages 3 false small).0 ≡ some 36
unfolding alloc_ppages try_words try_pages alloc_ppage_range all_free is_free note_free
finds_three = refl

finds_top : (alloc_ppages 2 true small).0 ≡ some 62
unfolding alloc_ppages try_words try_pages alloc_ppage_range all_free is_free note_free
finds_top = refl

small-IsValid : IsValid small
small-IsValid = record {
  some_word = omega arith;
  in_memory = omega arith;
  whole_words = refl;
  low = omega arith;
  full = λ q b. full_word small q 0 refl (omega arith);
}

alloc_ppages-Allocated_example :
    Allocated 3 small (alloc_ppages 3 false small)
    × IsValid (alloc_ppages 3 false small).1
    × ((alloc_ppages 3 false small).1.intr ≡ true)
alloc_ppages-Allocated_example = alloc_ppages-Allocated 3 small (omega arith) small-IsValid false

abbrev taken : Pages
taken = (alloc_ppages 3 false small).1

free_ppages-alloc_ppages_example :
    (u : Pages) × (free_ppages 36 3 taken ≡ some u)
    × ((q : ℕ) → is_free u q ≡ is_free small q)
    × IsValid u
    × (free_ppages 36 3 u ≡ none)
free_ppages-alloc_ppages_example =
    free_ppages-alloc_ppages 3 36 false small taken (omega arith) small-IsValid
      (λ i. (finds_three i, taken))
