-- ===== src/Pages/Search.antt =====
-- src/mem.c: what the search of `alloc_ppages` finds.
use boss.Prelude.{
  ℕ, zero, suc, ◌+◌, ◌-◌, ◌*◌, ◌/◌, ◌%◌, ◌^◌, ◌≤◌, ◌<◌, ◌≡◌, refl, ◌∙◌, sym, ◌⊎◌, inl, inr, Bool,
  true, false, none, some, ltb, leb, ◌==◌, ◌&&◌, ◌||◌, Bool-cases, ==_iff, if◌then◌else◌, arith,
}
use boss.Bits.{bit_ones}
use boss.Pages.{
  Pages, Sought, is_free, all_free, alloc_ppage_range, note_free, try_pages, try_words,
}
use boss.Pages.Marks.{is_free-bit}
use boss.Pages.Range.{inside, all_free_same, alloc_ppage_range_lem}

-- Every page is free in the one state exactly when it is free in the other.
abbrev pub Same : Pages → Pages → Type 0
Same s t = (q : ℕ) → is_free t q ≡ is_free s q

-- How a search over the start pages `among` may end: with a run of free pages, which is then used
-- and nothing else has changed, or with nothing changed and no free run at any of the pages.
pub data Outcome (count : ℕ) (among : ℕ → Bool) (s : Pages) (r : Sought) : Type 0 where
  hit :
      (p : ℕ)
      → r.page ≡ some p
      → among p ≡ true
      → all_free s p count ≡ true
      → ((q : ℕ) → is_free r.state q ≡ (if inside p count q then false else is_free s q))
      → Outcome count among s r
  miss :
      r.page ≡ none
      → Same s r.state
      → ((q : ℕ) → among q ≡ true → all_free s q count ≡ false)
      → Outcome count among s r

-- The pages that `n` rounds of the inner loop look at.
abbrev pub rounds : Bool → ℕ → ℕ → ℕ → Bool
rounds up pg n q = if up then leb pg q && ltb q (pg + n) else leb q pg && ltb pg (q + n)

-- The first of the pages of a run decides.
pub all_free_used :
    (s : Pages) (pg count : ℕ) → 0 < count → is_free s pg ≡ false → all_free s pg count ≡ false
unfolding all_free
all_free_used s pg zero h u = absurd (omega arith)
all_free_used s pg (suc n) h u = rw u

-- A search that goes on from an equal state, over what is left of the pages.
pub go_on :
    {count : ℕ} {rest among : ℕ → Bool} {s t : Pages} {r : Sought}
    → Same s t
    → ((q : ℕ) → rest q ≡ true → among q ≡ true)
    → ((q : ℕ) → among q ≡ true → (rest q ≡ true) ⊎ (all_free s q count ≡ false))
    → Outcome count rest t r
    → Outcome count among s r
go_on {count} {s} {t} same sub more (hit p e a free after) =
    hit p e (sub p a) (all_free_same s t p count (λ q. sym (same q)) ∙ free)
      (λ q. after q ∙ rw (same q))
go_on {count} {s} {t} same sub more (miss e after none_free) =
    miss e (λ q. after q ∙ same q)
      (λ q a. elim (more q a) [
        | inl left ↦ all_free_same s t q count (λ q. sym (same q)) ∙ none_free q left
        | inr seen ↦ seen
      ])

note_free-Same : (up found : Bool) (idx : ℕ) (s : Pages) → Same s (note_free up idx found s)
unfolding note_free is_free
note_free-Same true true idx s q = refl
note_free-Same true false idx s q = refl
note_free-Same false found idx s q = refl

rounds_next :
    (up : Bool) (pg n q : ℕ)
    → (up ≡ false → n ≤ pg)
    → rounds up (if up then pg + 1 else pg - 1) n q ≡ true
    → rounds up pg (suc n) q ≡ true
rounds_next true pg n q f h = ground arith
rounds_next false pg n q f h = ground (arith, f refl)

rounds_more :
    (up : Bool) (pg n q : ℕ)
    → rounds up pg (suc n) q ≡ true
    → (q ≡ pg) ⊎ (rounds up (if up then pg + 1 else pg - 1) n q ≡ true)
rounds_more true pg n q h = ground arith
rounds_more false pg n q h = ground arith

rounds_first : (up : Bool) (pg n : ℕ) → rounds up pg (suc n) pg ≡ true
rounds_first true pg n = ground arith
rounds_first false pg n = ground arith

no_rounds : (up : Bool) (pg q : ℕ) → rounds up pg zero q ≡ true → ⊥
no_rounds true pg q a = ground arith
no_rounds false pg q a = ground arith

-- One more round that has found no run at its own page.
go_on_round :
    {count pg n : ℕ} {up : Bool} {s t : Pages} {r : Sought}
    → Same s t
    → (up ≡ false → n ≤ pg)
    → all_free s pg count ≡ false
    → Outcome count (rounds up (if up then pg + 1 else pg - 1) n) t r
    → Outcome count (rounds up pg (suc n)) s r
go_on_round {count} {pg} {n} {up} {s} {t} {r} same room seen =
    go_on same (λ q. rounds_next up pg n q room)
      (λ q a. elim (rounds_more up pg n q a) [
        | inl first ↦ inr (rw first seen)
        | inr left ↦ inl left
      ])

module _ (up : Bool) (count : ℕ) (pos : 0 < count) (idx : ℕ) where
  try_pages-Outcome :
      (n pg : ℕ) (found : Bool) (s : Pages)
      → (up ≡ false → n ≤ pg + 1)
      → Outcome count (rounds up pg n) s (try_pages up count idx n pg found s)
  unfolding try_pages
  try_pages-Outcome zero pg found s room =
      miss refl (λ q. refl) (λ q a. absurd (no_rounds up pg q a))
  try_pages-Outcome (suc n) pg found s room =
      let lem = alloc_ppage_range_lem pg count t in
      elim (Bool-cases (is_free s pg)) [
        | inr used ↦
            rw (used, try_pages)
              (go_on_round (λ q. refl) room' (all_free_used s pg count pos used)
                (try_pages-Outcome n next found s room''))
        | inl free ↦ elim (Bool-cases (alloc_ppage_range pg count t).0) [
          | inl done ↦
              rw (free, try_pages, done)
                (hit pg refl (rounds_first up pg n)
                  (sym (all_free_same t s pg count same) ∙ sym lem.0 ∙ done)
                  (λ q. lem.1 q ∙ rw (done, same q)))
          | inr failed ↦
              rw (free, try_pages, failed)
                (go_on_round (λ q. lem.1 q ∙ rw (failed, same q)) room'
                  (sym (all_free_same t s pg count same) ∙ sym lem.0 ∙ failed)
                  (try_pages-Outcome n next (up || found) (alloc_ppage_range pg count t).1 room''))
        ]
      ]
    where
      next : ℕ
      next = if up then pg + 1 else pg - 1

      t : Pages
      t = note_free up idx found s

      same : (q : ℕ) → is_free t q ≡ is_free s q
      same = note_free-Same up found idx s

      room' : up ≡ false → n ≤ pg
      room' f = omega (arith, room f)

      room'' : up ≡ false → n ≤ next + 1
      room'' f = rw f (omega (arith, room f))

-- A word of 32 ones has no free page.
pub full_word :
    (s : Pages) (q idx : ℕ) → s.bitmap idx ≡ 2 ^ 32 - 1 → q / 32 ≡ idx → is_free s q ≡ false
full_word s q idx full e = is_free-bit s q ∙ rw (e, full, bit_ones (q % 32) (omega arith)) refl

word_rounds :
    (up : Bool) (idx q : ℕ)
    → (rounds up (if up then idx * 32 else idx * 32 + 31) 32 q) ≡ (q / 32 == idx)
word_rounds true idx q = ground arith
word_rounds false idx q = ground arith

-- The pages of the words that `n` rounds of the outer loop look at.
abbrev pub words : Bool → ℕ → ℕ → ℕ → Bool
words up idx n q = rounds up idx n (q / 32)

go_on_word :
    {count idx n : ℕ} {up : Bool} {s t : Pages} {r : Sought}
    → Same s t
    → (up ≡ false → n ≤ idx)
    → ((q : ℕ) → q / 32 ≡ idx → all_free s q count ≡ false)
    → Outcome count (words up (if up then idx + 1 else idx - 1) n) t r
    → Outcome count (words up idx (suc n)) s r
go_on_word {count} {idx} {n} {up} {s} {t} {r} same room seen =
    go_on same (λ q. rounds_next up idx n (q / 32) room)
      (λ q a. elim (rounds_more up idx n (q / 32) a) [
        | inl first ↦ inr (seen q first)
        | inr left ↦ inl left
      ])

-- One word of the outer loop: the search inside it, and what comes after it if that fails.
one_word :
    {count idx n : ℕ} {up : Bool} {s : Pages} (r : Sought) (rest : Sought)
    → (up ≡ false → n ≤ idx)
    → Outcome count (rounds up (if up then idx * 32 else idx * 32 + 31) 32) s r
    → (r.page ≡ none → Outcome count (words up (if up then idx + 1 else idx - 1) n) r.state rest)
    → Outcome count (words up idx (suc n)) s (elim r.page [ some pg ↦ r | none ↦ rest ])
one_word {count} {idx} {n} {up} {s} r rest room (hit p e a free after) go =
    rw e (
      hit p e (rw (inside_word (sym (word_rounds up idx p) ∙ a)) (rounds_first up idx n)) free
        after)
  where
    inside_word : (p / 32 == idx) ≡ true → p / 32 ≡ idx
    inside_word = (==_iff _ _).0
one_word {count} {idx} {n} {up} {s} r rest room (miss e same none_free) go =
    rw e
      (go_on_word same room (λ q w. none_free q (word_rounds up idx q ∙ (==_iff _ _).1 w)) (go e))

module _ (up : Bool) (count : ℕ) (pos : 0 < count) where
  pub try_words-Outcome :
      (n idx : ℕ) (found : Bool) (s : Pages)
      → (up ≡ false → n ≤ idx + 1)
      → Outcome count (words up idx n) s (try_words up count n idx found s)
  unfolding try_words
  try_words-Outcome zero idx found s room =
      miss refl (λ q. refl) (λ q a. absurd (no_rounds up idx (q / 32) a))
  try_words-Outcome (suc n) idx found s room = elim (Bool-cases (s.bitmap idx == 2 ^ 32 - 1)) [
    | inl full ↦
        rw (full, try_words)
          (go_on_word (λ q. refl) room'
            (λ q e. all_free_used s q count pos (full_word s q idx ((==_iff _ _).0 full) e))
            (try_words-Outcome n next found s room''))
    | inr open_word ↦
        rw (open_word, try_words)
          (one_word r (try_words up count n next r.found_free r.state) room'
            (try_pages-Outcome up count pos idx 32 start found s (start_room up))
            (λ e. try_words-Outcome n next r.found_free r.state room''))
  ]
    where
      next : ℕ
      next = if up then idx + 1 else idx - 1

      start : ℕ
      start = if up then idx * 32 else idx * 32 + 31

      r : Sought
      r = try_pages up count idx 32 start found s

      room' : up ≡ false → n ≤ idx
      room' f = omega (arith, room f)

      room'' : up ≡ false → n ≤ next + 1
      room'' f = rw f (omega (arith, room f))

      start_room : (up : Bool) → up ≡ false → 32 ≤ (if up then idx * 32 else idx * 32 + 31) + 1
      start_room true f = cc
      start_room false f = omega arith
