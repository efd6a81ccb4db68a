-- ===== src/Pages.antt =====
-- src/mem.c: the allocator of physical pages. The bitmap is the memory behind the kernel image, read
-- as 32-bit words; a set bit is a used page. The interrupt flag of the processor is part of the
-- state, since each operation saves, clears and restores it.
pub mod Marks
pub mod Range
pub mod Search
pub mod Free
pub mod Hint
pub mod Alloc
mod Tests
use Prim.Native.Nat.{bit_and, bit_or}
use boss.Prelude.{
  ℕ, zero, suc, ◌+◌, ◌-◌, ◌*◌, ◌/◌, ◌%◌, ◌^◌, Bool, true, false, Option, none, some, ltb, ◌==◌,
  ◌&&◌, ◌||◌, not, if◌then◌else◌,
}

pub record Pages : Type 0 where
  pub bitmap : ℕ → ℕ
  pub bmsize : ℕ
  pub last_alloc_idx : ℕ
  pub intr : Bool

-- `bitmap[idx] = w`
pub put_word : ℕ → ℕ → Pages → Pages
put_word idx w s = record s { bitmap = λ i. if i == idx then w else s.bitmap i }

-- `IS_FREE`
pub is_free : Pages → ℕ → Bool
is_free s pg = bit_and (s.bitmap (pg / 32)) (2 ^ (pg % 32)) == 0

-- `mark_page`
pub mark_page : ℕ → Bool → Pages → Pages
mark_page pg used s =
    let w = s.bitmap (pg / 32) in
    let bit = 2 ^ (pg % 32) in
    put_word (pg / 32) (if used then bit_or w bit else bit_and w (2 ^ 32 - 1 - bit)) s

-- The first loop of `alloc_ppage_range`.
pub all_free : Pages → ℕ → ℕ → Bool
all_free s pg zero = true
all_free s pg (suc n) = is_free s pg && all_free s (pg + 1) n

-- `for(i=0; i<n; i++) mark_page(pg++, used)`
pub mark_range : ℕ → ℕ → Bool → Pages → Pages
mark_range pg zero used s = s
mark_range pg (suc n) used s = mark_range (pg + 1) n used (mark_page pg used s)

-- The early return leaves interrupts disabled.
pub alloc_ppage_range : ℕ → ℕ → Pages → Bool × Pages
alloc_ppage_range start size s =
    if all_free s start size
    then (true, record (mark_range start size true s) { intr = s.intr })
    else (false, record s { intr = false })

-- What the search of `alloc_ppages` carries: the page found, `found_free`, and the state.
pub record Sought : Type 0 where
  pub page : Option ℕ
  pub found_free : Bool
  pub state : Pages

abbrev pub sought : Option ℕ → Bool → Pages → Sought
sought p f s = record { page = p; found_free = f; state = s }

-- `last_alloc_idx = idx` at the first free page, on the way up.
pub note_free : Bool → ℕ → Bool → Pages → Pages
note_free up idx found s = if up && not found then record s { last_alloc_idx = idx } else s

-- The loop over the 32 pages of a word; `up` is `dir > 0`.
pub try_pages : Bool → ℕ → ℕ → ℕ → ℕ → Bool → Pages → Sought
try_pages up count idx zero pg found s = sought none found s
try_pages up count idx (suc n) pg found s =
    let next : ℕ = if up then pg + 1 else pg - 1 in
    elim (is_free s pg) [
      | false ↦ try_pages up count idx n next found s
      | true ↦
          let (done, s') = alloc_ppage_range pg count (note_free up idx found s) in
          elim done [
            | true ↦ sought (some pg) (up || found) s'
            | false ↦ try_pages up count idx n next (up || found) s'
          ]
    ]

-- The loop over the words, with the number of words left for `idx != max`.
pub try_words : Bool → ℕ → ℕ → ℕ → Bool → Pages → Sought
try_words up count zero idx found s = sought none found s
try_words up count (suc n) idx found s =
    let next : ℕ = if up then idx + 1 else idx - 1 in
    elim (s.bitmap idx == 2 ^ 32 - 1) [
      | true ↦ try_words up count n next found s
      | false ↦
          let r = try_pages up count idx 32 (if up then idx * 32 else idx * 32 + 31) found s in
          elim r.page [ some pg ↦ r | none ↦ try_words up count n next r.found_free r.state ]
    ]

-- `alloc_ppages`; `stack` is `area == MEM_STACK`, and `none` is -1. On the way up the loop takes
-- `bmsize / 4 - last_alloc_idx` rounds, which `last_alloc_idx <= bmsize / 4` makes it end.
pub alloc_ppages : ℕ → Bool → Pages → Option ℕ × Pages
alloc_ppages count stack s =
    let s' = record s { intr = false } in
    let top = (s.bmsize - 1) / 4 in
    let r =
      if stack
      then try_words false count (top + 1) top false s'
      else try_words true count (s.bmsize / 4 - s.last_alloc_idx) s.last_alloc_idx false s' in
    (r.page, record r.state { intr = s.intr })

pub alloc_ppage : Bool → Pages → Option ℕ × Pages
alloc_ppage stack s = alloc_ppages 1 stack s

-- `free_ppage`; `none` is the panic.
pub free_ppage : ℕ → Pages → Option Pages
free_ppage pg s =
    if is_free s pg
    then none
    else let s' = mark_page pg false s in
      some (if ltb (pg / 32) s'.last_alloc_idx then record s' { last_alloc_idx = pg / 32 } else s')

-- `free_ppages` and `free_ppage_range`, which have the same loop.
pub free_ppages : ℕ → ℕ → Pages → Option Pages
free_ppages pg zero s = some s
free_ppages pg (suc n) s = elim (free_ppage pg s) [
  | none ↦ none
  | some s' ↦ free_ppages (pg + 1) n s'
]

-- `add_memory`: the pages that a range of `sz` bytes from `start` touches.
pub add_memory : ℕ → ℕ → Pages → Pages
add_memory start sz s = mark_range (start / 4096) ((sz + 4095) % 2 ^ 32 / 4096) false s
