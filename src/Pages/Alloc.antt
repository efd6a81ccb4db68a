-- ===== src/Pages/Alloc.antt =====
-- src/mem.c: `alloc_ppages` as a whole.
use boss.Prelude.{
  ℕ, ◌+◌, ◌-◌, ◌*◌, ◌/◌, ◌%◌, ◌^◌, ◌≤◌, ◌<◌, ◌≡◌, refl, ◌∙◌, ◌⊎◌, inl, inr, Bool, true, false,
  Option, none, some, if◌then◌else◌, arith,
}
use native.Mathlib.Decide.{dec_lt}
use boss.Pages.{Pages, Sought, is_free, all_free, try_words, alloc_ppages}
use boss.Pages.Range.{inside, is_free-intr}
use boss.Pages.Search.{Outcome, hit, miss, words, go_on, try_words-Outcome, all_free_used}
use boss.Pages.Hint.{FullBelow, Hinted, try_words-Hinted}

-- The bitmap is some whole words, for at most 2^20 pages, the hint points into it, and no page before its word is free.
pub record IsValid (s : Pages) : Type 0 where
  pub some_word : 0 < s.bmsize
  pub in_memory : s.bmsize ≤ 2 ^ 17
  pub whole_words : s.bmsize % 4 ≡ 0
  pub low : s.last_alloc_idx ≤ s.bmsize / 4
  pub full : FullBelow s

-- A call that returns page `p` has found `count` free pages from there on, and they are now used;
-- every other page is as before.
pub record Took (count p : ℕ) (s t : Pages) : Type 0 where
  pub run : all_free s p count ≡ true
  pub pages : (q : ℕ) → is_free t q ≡ (if inside p count q then false else is_free s q)

-- A call that fails has changed no page, and no `count` free pages follow one another from any page
-- of the bitmap.
pub record Failed (count : ℕ) (s t : Pages) : Type 0 where
  pub pages : (q : ℕ) → is_free t q ≡ is_free s q
  pub none_free : (q : ℕ) → q / 32 < s.bmsize / 4 → all_free s q count ≡ false

abbrev pub Allocated : ℕ → Pages → Option ℕ × Pages → Type 0
Allocated count s (some p, t) = Took count p s t × (p / 32 < s.bmsize / 4)
Allocated count s (none, t) = Failed count s t

-- The words that `alloc_ppages` looks at.
abbrev range : Bool → Pages → ℕ → Bool
range stack s q =
    if stack
    then words false ((s.bmsize - 1) / 4) ((s.bmsize - 1) / 4 + 1) q
    else words true s.last_alloc_idx (s.bmsize / 4 - s.last_alloc_idx) q

in_range :
    (stack : Bool) (s : Pages) (q : ℕ) → IsValid s → range stack s q ≡ true → q / 32 < s.bmsize / 4
in_range true s q v h = ground (arith, v.some_word, v.whole_words)
in_range false s q v h = ground (arith, v.low)

out_of_range :
    (stack : Bool) (s : Pages) (q : ℕ)
    → IsValid s
    → q / 32 < s.bmsize / 4
    → (range stack s q ≡ true) ⊎ (is_free s q ≡ false)
out_of_range true s q v h = inl (ground (arith, v.some_word, v.whole_words))
out_of_range false s q v h = elim (dec_lt (q / 32) s.last_alloc_idx) [
  | yes below ↦ inr (v.full q below)
  | no other ↦ inl (ground (arith, v.low))
]

allocated :
    (stack : Bool) (count : ℕ) (s : Pages) (r : Sought) (t : Pages)
    → 0 < count
    → IsValid s
    → ((q : ℕ) → is_free t q ≡ is_free r.state q)
    → Outcome count (range stack s) s r
    → Allocated count s (r.page, t)
allocated stack count s r t pos v same (hit p e a free after) =
    rw e (record { run = free; pages = λ q. same q ∙ after q }, in_range stack s p v a)
allocated stack count s r t pos v same (miss e after none_free) = rw e (record {
  pages = λ q. same q ∙ after q;
  none_free = λ q b. elim (out_of_range stack s q v b) [
    | inl seen ↦ none_free q seen
    | inr used ↦ all_free_used s q count pos used
  ];
})

-- The search of `alloc_ppages`, with its state in the end.
module _ (count : ℕ) (s : Pages) (pos : 0 < count) (v : IsValid s) where
  quiet : Pages
  quiet = record s { intr = false }

  search_up : Sought
  search_up = try_words true count (s.bmsize / 4 - s.last_alloc_idx) s.last_alloc_idx false quiet

  search_down : Sought
  search_down = try_words false count ((s.bmsize - 1) / 4 + 1) ((s.bmsize - 1) / 4) false quiet

  start :
      (up : Bool) (pg : ℕ)
      → (up ≡ true → pg ≤ s.last_alloc_idx * 32)
      → Hinted (s.bmsize / 4) s.bmsize up pg false quiet
  unfolding quiet
  start up pg le = record {
    full = λ q b. is_free-intr s false q ∙ v.full q b;
    seen = λ u f q l. is_free-intr s false q ∙ v.full q (omega (arith, le u));
    low = v.low;
    same_size = refl;
  }

  valid :
      (r : Sought)
      → FullBelow r.state × (r.state.last_alloc_idx ≤ s.bmsize / 4) × (r.state.bmsize ≡ s.bmsize)
      → IsValid (record r.state { intr = s.intr })
  valid r h = record {
    some_word = omega (arith, h.2, v.some_word);
    in_memory = rw h.2 v.in_memory;
    whole_words = rw h.2 v.whole_words;
    low = rw h.2 h.1;
    full = λ q b. is_free-intr r.state s.intr q ∙ h.0 q b;
  }

  same_quiet :
      {among : ℕ → Bool} {r : Sought} → Outcome count among quiet r → Outcome count among s r
  unfolding quiet
  same_quiet out = go_on (is_free-intr s false) (λ q h. h) (λ q h. inl h) out

  -- Allocating from the bottom or, for the stack, from the top: a run of free pages is found whenever
  -- there is one in the bitmap, and exactly its pages become used; the interrupt flag is as before,
  -- and the hint stays valid. A count of 0 is left out.
  pub alloc_ppages-Allocated :
      (stack : Bool)
      → Allocated count s (alloc_ppages count stack s)
        × IsValid (alloc_ppages count stack s).1
        × ((alloc_ppages count stack s).1.intr ≡ s.intr)
  unfolding alloc_ppages search_up search_down quiet
  alloc_ppages-Allocated false =
      let n = s.bmsize / 4 - s.last_alloc_idx in
      (
        allocated false count s search_up _ pos v (is_free-intr search_up.state s.intr) (
            same_quiet (try_words-Outcome true count pos n s.last_alloc_idx false quiet (λ f. cc))),
        valid search_up (
            try_words-Hinted true count n s.last_alloc_idx false quiet (λ u. omega (arith, v.low))
              (start true (s.last_alloc_idx * 32) (λ u. omega arith))),
        refl,
      )
  alloc_ppages-Allocated true =
      let top = (s.bmsize - 1) / 4 in
      (
        allocated true count s search_down _ pos v (is_free-intr search_down.state s.intr) (
            same_quiet
              (try_words-Outcome false count pos (top + 1) top false quiet (λ f. omega arith))),
        valid search_down (
            try_words-Hinted false count (top + 1) top false quiet (λ u. cc)
              (start false (top * 32) (λ u. cc))),
        refl,
      )
