-- ===== src/Pages/Free.antt =====
-- src/mem.c: `free_ppage` and `free_ppages`, against `alloc_ppages`.
use boss.Prelude.{
  ℕ, zero, suc, ◌+◌, ◌/◌, ◌≤◌, ◌<◌, ◌≡◌, refl, ◌∙◌, sym, inl, inr, Bool, true, false, none, some,
  ltb, ◌==◌, Bool-cases, if◌then◌else◌, arith,
}
use boss.Pages.{Pages, is_free, put_word, mark_page, alloc_ppages, free_ppage, free_ppages}
use boss.Pages.Marks.{is_free-mark_page}
use boss.Pages.Range.{inside, all_free_sound}
use boss.Pages.Alloc.{IsValid, Took, alloc_ppages-Allocated}

-- What a successful `free_ppages` leaves: the run is free, every other page is as before.
pub record Gave (pg n : ℕ) (s t : Pages) : Type 0 where
  pub pages : (q : ℕ) → is_free t q ≡ (if inside pg n q then true else is_free s q)
  pub valid : IsValid s → IsValid t

is_free-last : (s : Pages) (i q : ℕ) → is_free (record s { last_alloc_idx = i }) q ≡ is_free s q
unfolding is_free
is_free-last s i q = refl

-- What `free_ppage` leaves of the state when it does not panic.
lowered : ℕ → Pages → Pages
lowered pg s =
    let s' = mark_page pg false s in
    if ltb (pg / 32) s'.last_alloc_idx then record s' { last_alloc_idx = pg / 32 } else s'

lowered-is_free :
    (pg : ℕ) (s : Pages) (q : ℕ)
    → is_free (lowered pg s) q ≡ (if q == pg then true else is_free s q)
unfolding lowered
lowered-is_free pg s q = elim (Bool-cases (ltb (pg / 32) (mark_page pg false s).last_alloc_idx)) [
  | inl lower ↦
      rw lower (is_free-last (mark_page pg false s) (pg / 32) q ∙ is_free-mark_page s pg q false)
  | inr keep ↦ rw keep (is_free-mark_page s pg q false)
]

lowered_fields :
    (pg : ℕ) (s : Pages)
    → ((lowered pg s).bmsize ≡ s.bmsize)
      × ((lowered pg s).last_alloc_idx ≤ s.last_alloc_idx)
      × ((lowered pg s).last_alloc_idx ≤ pg / 32)
unfolding lowered mark_page put_word
lowered_fields pg s = (ground arith, ground arith, ground arith)

lowered-IsValid : (pg : ℕ) (s : Pages) → IsValid s → IsValid (lowered pg s)
lowered-IsValid pg s v =
    let (size, low, below) = lowered_fields pg s in
    record {
      some_word = omega (arith, size, v.some_word);
      in_memory = rw size v.in_memory;
      whole_words = rw size v.whole_words;
      low = rw size (omega (arith, low, v.low));
      full = λ q b.
          let other : (q == pg) ≡ false = ground (arith, below) in
          lowered-is_free pg s q ∙ rw (other, v.full q (omega (arith, low)));
    }

free_one : (pg : ℕ) (s : Pages) → is_free s pg ≡ false → free_ppage pg s ≡ some (lowered pg s)
unfolding free_ppage lowered
free_one pg s used = rw used

-- A run of used pages can be freed.
pub free_ppages-Gave :
    (pg n : ℕ) (s : Pages)
    → ((q : ℕ) → inside pg n q ≡ true → is_free s q ≡ false)
    → (t : Pages) × (free_ppages pg n s ≡ some t) × Gave pg n s t
unfolding free_ppages
free_ppages-Gave pg zero s used = (s, refl, record { pages = λ q. ground arith; valid = λ v. v })
free_ppages-Gave pg (suc n) s used =
    let s' = lowered pg s in
    let first : is_free s pg ≡ false = used pg (ground arith) in
    let rest : (q : ℕ) → inside (pg + 1) n q ≡ true → is_free s' q ≡ false = λ q i.
      let other : (q == pg) ≡ false = ground arith in
      lowered-is_free pg s q ∙ rw other (used q (ground arith)) in
    let (t, e, gave) = free_ppages-Gave (pg + 1) n s' rest in
    (
      t,
      rw (free_one pg s first, free_ppages) e,
      record {
        pages = λ q. gave.pages q ∙ rw (lowered-is_free pg s q) (ground arith);
        valid = λ v. gave.valid (lowered-IsValid pg s v);
      },
    )

-- The check of `free_ppage` stops a run that begins with a free page.
free_twice : (p n : ℕ) (s : Pages) → 0 < n → is_free s p ≡ true → free_ppages p n s ≡ none
unfolding free_ppages free_ppage
free_twice p zero s pos free = absurd (omega arith)
free_twice p (suc n) s pos free = rw (free, free_ppages)

-- What `alloc_ppages` has taken can be given back: that does not panic, every page is then as it
-- was before the allocation, and the hint is valid. Giving it back once more panics.
pub free_ppages-alloc_ppages :
    (count p : ℕ) (stack : Bool) (s t : Pages)
    → 0 < count
    → IsValid s
    → alloc_ppages count stack s ≡ (some p, t)
    → (u : Pages) × (free_ppages p count t ≡ some u)
      × ((q : ℕ) → is_free u q ≡ is_free s q)
      × IsValid u
      × (free_ppages p count u ≡ none)
free_ppages-alloc_ppages count p stack s t pos v e =
    let (al, valid, flag) = alloc_ppages-Allocated count s pos v stack in
    let took : Took count p s t × (p / 32 < s.bmsize / 4) = rw e at al in
    let valid' : IsValid t = rw e at valid in
    let (u, freed, gave) = free_ppages-Gave p count t (λ q i. took.0.pages q ∙ rw i) in
    let back : (q : ℕ) → is_free u q ≡ is_free s q = λ q. elim (Bool-cases (inside p count q)) [
      | inl i ↦ gave.pages q ∙ rw i (sym (all_free_sound s p count q took.0.run i))
      | inr o ↦ gave.pages q ∙ rw o (took.0.pages q ∙ rw o)
    ] in
    (u, freed, back, gave.valid valid', free_twice p count u pos (gave.pages p ∙ first p count pos))
  where
    first : (p count : ℕ) → 0 < count → (if inside p count p then true else is_free t p) ≡ true
    first p count pos = ground arith
