-- ===== src/Pages/Hint.antt =====
-- src/mem.c: `last_alloc_idx`, the word from which `alloc_ppages` searches.
use boss.Prelude.{
  ℕ, zero, suc, ◌+◌, ◌-◌, ◌*◌, ◌/◌, ◌^◌, ◌≤◌, ◌<◌, ◌≡◌, refl, ◌∙◌, inl, inr, Bool, true, false,
  ◌==◌, ◌||◌, Bool-cases, ==_iff, Option-cases, if◌then◌else◌, arith,
}
use native.Mathlib.Decide.{dec_lt}
use boss.Pages.{Pages, Sought, is_free, alloc_ppage_range, note_free, try_pages, try_words}
use boss.Pages.Range.{alloc_ppage_range_lem}
use boss.Pages.Search.{full_word}

-- No page before the word of `last_alloc_idx` is free.
abbrev pub FullBelow : Pages → Type 0
FullBelow s = (q : ℕ) → q / 32 < s.last_alloc_idx → is_free s q ≡ false

-- The state of a search that has come to page `pg`, in a bitmap of `top` words.
pub record Hinted (top size : ℕ) (up : Bool) (pg : ℕ) (found : Bool) (s : Pages) : Type 0 where
  pub full : FullBelow s
  pub seen : up ≡ true → found ≡ false → (q : ℕ) → q < pg → is_free s q ≡ false
  pub low : s.last_alloc_idx ≤ top
  pub same_size : s.bmsize ≡ size

-- Noting a free page keeps what is known of the hint.
noted-FullBelow :
    {top size pg : ℕ} (up found : Bool) (idx : ℕ) {s : Pages}
    → (up ≡ true → (idx * 32 ≤ pg) × (idx ≤ top))
    → Hinted top size up pg found s
    → FullBelow (note_free up idx found s)
      × ((note_free up idx found s).last_alloc_idx ≤ top)
      × ((note_free up idx found s).bmsize ≡ size)
unfolding note_free is_free
noted-FullBelow true true idx at h = (h.full, h.low, h.same_size)
noted-FullBelow true false idx at h =
    (λ q b. h.seen refl refl q (omega (arith, (at refl).0)), (at refl).1, h.same_size)
noted-FullBelow false found idx at h = (h.full, h.low, h.same_size)

-- A free page has been noted, and a run has been tried.
after_try :
    {top size pg : ℕ} {up found : Bool} (pg' idx count : ℕ) {s : Pages}
    → (up ≡ true → (idx * 32 ≤ pg) × (idx ≤ top))
    → Hinted top size up pg found s
    → Hinted top size up pg' (up || found) (alloc_ppage_range pg count (note_free up idx found s)).1
after_try {pg} {up} {found} pg' idx count {s} at h =
    let t = note_free up idx found s in
    let lem = alloc_ppage_range_lem pg count t in
    let (full, low, size) = noted-FullBelow up found idx at h in
    record {
      full = λ q b. lem.1 q ∙ stays _ _ (full q (omega (arith, lem.3)));
      seen = λ u f. let e : (true || found) ≡ false = rw u at f in cc;
      low = omega (arith, lem.3, low);
      same_size = lem.4 ∙ size;
    }
  where
    stays : (b free : Bool) → free ≡ false → (if b then false else free) ≡ false
    stays b free f = ground arith

-- Less is known further down, and on the way down nothing is.
move :
    {top size a : ℕ} {up found : Bool} {s : Pages} (b : ℕ)
    → (up ≡ true → b ≤ a)
    → Hinted top size up a found s
    → Hinted top size up b found s
move b le h = record {
  full = h.full;
  seen = λ u f q l. h.seen u f q (omega (arith, le u));
  low = h.low;
  same_size = h.same_size;
}

-- A used page has been passed.
past_used :
    {top size pg : ℕ} {up found : Bool} {s : Pages}
    → is_free s pg ≡ false
    → Hinted top size up pg found s
    → Hinted top size up (pg + 1) found s
past_used {pg} {s} used h = record {
  full = h.full;
  seen = λ u f q l. elim (dec_lt q pg) [
    | yes below ↦ h.seen u f q below
    | no other ↦ let e : q ≡ pg = omega arith in rw e used
  ];
  low = h.low;
  same_size = h.same_size;
}

module _ {top size : ℕ} (up : Bool) (count : ℕ) where
  try_pages-Hinted :
      (idx n pg : ℕ) (found : Bool) (s : Pages)
      → (up ≡ true → (idx * 32 ≤ pg) × (idx ≤ top))
      → Hinted top size up pg found s
      → let r = try_pages up count idx n pg found s in
        Hinted top size up (pg + n) r.found_free r.state
  unfolding try_pages
  try_pages-Hinted idx zero pg found s at h = move (pg + 0) (λ u. omega arith) h
  try_pages-Hinted idx (suc n) pg found s at h = elim (Bool-cases (is_free s pg)) [
    | inr used ↦
        rw (used, try_pages)
          (move (pg + suc n) (λ u. rw u (omega arith))
            (try_pages-Hinted idx n next found s at'
              (move next (λ u. rw u (omega arith)) (past_used used h))))
    | inl free ↦ elim (Bool-cases (alloc_ppage_range pg count (note_free up idx found s)).0) [
      | inl done ↦ rw (free, try_pages, done) (after_try (pg + suc n) idx count at h)
      | inr failed ↦
          rw (free, try_pages, failed)
            (move (pg + suc n) (λ u. rw u (omega arith))
              (try_pages-Hinted idx n next (up || found) _ at' (after_try next idx count at h)))
    ]
  ]
    where
      next : ℕ
      next = if up then pg + 1 else pg - 1

      at' : up ≡ true → (idx * 32 ≤ next) × (idx ≤ top)
      at' u = rw u (omega (arith, (at u).0), (at u).1)

  -- A full word has been passed.
  past_word :
      (idx : ℕ) {found : Bool} {s : Pages}
      → s.bitmap idx ≡ 2 ^ 32 - 1
      → Hinted top size up (idx * 32) found s
      → Hinted top size up ((idx + 1) * 32) found s
  past_word idx {s} full h = record {
    full = h.full;
    seen = λ u f q l. elim (dec_lt q (idx * 32)) [
      | yes below ↦ h.seen u f q below
      | no other ↦ full_word s q idx full (omega arith)
    ];
    low = h.low;
    same_size = h.same_size;
  }

  pub try_words-Hinted :
      (n idx : ℕ) (found : Bool) (s : Pages)
      → (up ≡ true → idx + n ≤ top)
      → Hinted top size up (idx * 32) found s
      → let r = try_words up count n idx found s in
        FullBelow r.state × (r.state.last_alloc_idx ≤ top) × (r.state.bmsize ≡ size)
  unfolding try_words
  try_words-Hinted zero idx found s room h = (h.full, h.low, h.same_size)
  try_words-Hinted (suc n) idx found s room h = elim (Bool-cases (s.bitmap idx == 2 ^ 32 - 1)) [
    | inl full ↦
        rw (full, try_words)
          (try_words-Hinted n next found s room'
            (move (next * 32) (λ u. rw u (omega arith)) (past_word idx ((==_iff _ _).0 full) h)))
    | inr open_word ↦ elim (Option-cases r.page) [
      | inl none_here ↦
          rw (open_word, try_words, none_here)
            (try_words-Hinted n next r.found_free r.state room'
              (move (next * 32) (λ u. rw u (omega arith)) inner))
      | inr (p, here) ↦ rw (open_word, try_words, here) (inner.full, inner.low, inner.same_size)
    ]
  ]
    where
      next : ℕ
      next = if up then idx + 1 else idx - 1

      start : ℕ
      start = if up then idx * 32 else idx * 32 + 31

      r : Sought
      r = try_pages up count idx 32 start found s

      inner : Hinted top size up (start + 32) r.found_free r.state
      inner =
          try_pages-Hinted idx 32 start found s (λ u. rw u (omega arith, omega (arith, room u)))
            (move start (λ u. rw u (omega arith)) h)

      room' : up ≡ true → next + n ≤ top
      room' u = rw u (omega (arith, room u))
