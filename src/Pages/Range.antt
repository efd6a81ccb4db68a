-- ===== src/Pages/Range.antt =====
-- src/mem.c: `alloc_ppage_range`.
use boss.Prelude.{
  ℕ, zero, suc, ◌+◌, ◌≡◌, refl, ◌∙◌, inl, inr, Bool, true, false, ltb, leb, ◌&&◌, Bool-cases,
  if◌then◌else◌, arith,
}
use boss.Pages.{Pages, put_word, is_free, mark_page, all_free, mark_range, alloc_ppage_range}
use boss.Pages.Marks.{is_free-mark_range}

-- `q` is one of the `n` pages from `pg` on.
abbrev pub inside : ℕ → ℕ → ℕ → Bool
inside pg n q = leb pg q && ltb q (pg + n)

-- The fields that marking leaves alone.
pub mark_range_fields :
    (pg n : ℕ) (used : Bool) (s : Pages)
    → ((mark_range pg n used s).bmsize ≡ s.bmsize)
      × ((mark_range pg n used s).last_alloc_idx ≡ s.last_alloc_idx)
      × ((mark_range pg n used s).intr ≡ s.intr)
unfolding mark_range mark_page put_word
mark_range_fields pg zero used s = (refl, refl, refl)
mark_range_fields pg (suc n) used s = mark_range_fields (pg + 1) n used (mark_page pg used s)

-- The check passes exactly when every page of the run is free.
pub all_free_sound :
    (s : Pages) (pg n q : ℕ) → all_free s pg n ≡ true → inside pg n q ≡ true → is_free s q ≡ true
unfolding all_free
all_free_sound s pg zero q h i = absurd (ground arith)
all_free_sound s pg (suc n) q h i = ground (arith, all_free_sound s (pg + 1) n q)

pub all_free_complete :
    (s : Pages) (pg n : ℕ)
    → ((q : ℕ) → inside pg n q ≡ true → is_free s q ≡ true)
    → all_free s pg n ≡ true
unfolding all_free
all_free_complete s pg zero h = refl
all_free_complete s pg (suc n) h =
    let first : is_free s pg ≡ true = h pg (ground arith) in
    rw first (all_free_complete s (pg + 1) n (λ q i. h q (ground arith)))

-- Only the bitmap counts.
pub all_free_same :
    (s t : Pages) (pg n : ℕ)
    → ((q : ℕ) → is_free s q ≡ is_free t q)
    → all_free s pg n ≡ all_free t pg n
unfolding all_free
all_free_same s t pg zero h = refl
all_free_same s t pg (suc n) h = rw (h pg, all_free_same s t (pg + 1) n h)

pub is_free-intr : (s : Pages) (f : Bool) (q : ℕ) → is_free (record s { intr = f }) q ≡ is_free s q
unfolding is_free
is_free-intr s f q = refl

-- The outcome of `alloc_ppage_range`: it succeeds exactly when the whole run is free; then the
-- pages of the run are used and every other page is as before, and on failure every page is as
-- before. The interrupt flag is restored on success and left clear on failure.
pub alloc_ppage_range_lem :
    (start size : ℕ) (s : Pages)
    → let (done, s') = alloc_ppage_range start size s in
      (done ≡ all_free s start size)
      × ((q : ℕ) → is_free s' q ≡ (if done && inside start size q then false else is_free s q))
      × (s'.intr ≡ (s.intr && done))
      × (s'.last_alloc_idx ≡ s.last_alloc_idx)
      × (s'.bmsize ≡ s.bmsize)
unfolding alloc_ppage_range
alloc_ppage_range_lem start size s = elim (Bool-cases (all_free s start size)) [
  | inl ok ↦ rw ok (
    refl,
    λ q.
        is_free-intr (mark_range start size true s) s.intr q
        ∙ is_free-mark_range s start size q true,
    ground arith,
    (mark_range_fields start size true s).1,
    (mark_range_fields start size true s).0,
  )
  | inr bad ↦ rw bad (refl, λ q. is_free-intr s false q, ground arith, refl, refl)
]
