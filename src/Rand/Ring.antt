-- ===== src/Rand/Ring.antt =====
-- The ring of src/libc/rand.c as a sequence.
use boss.Prelude.{
  ℕ, zero, suc, ◌+◌, ◌-◌, ◌/◌, ◌%◌, ◌^◌, ◌<◌, ◌≤◌, ◌≡◌, refl, ◌∙◌, sym, ap, inl, inr, Bool-cases,
  true, false, List, [], ◌∷◌, get_or, leb, ◌==◌, if◌then◌else◌, update, arith,
}
use boss.Rand.{Rng, next_rand, seed_words, skip_rands, srand, rand}

-- The words so far, the last one first: each is the sum of the words 34 and 28 places before it.
unfoldable pub history : ℕ → List ℕ → List ℕ
history zero words = words
history (suc k) words =
    let before = history k words in (get_or before 33 0 + get_or before 27 0) % 2 ^ 32 ∷ before

-- The ring holds the last 34 words of the history, from the place in front of `ptr1` backwards.
pub record IsRing (k : ℕ) (past : List ℕ) (g : Rng) : Type 0 where
  pub at_ptr0 : g.ptr0 ≡ (3 + k) % 34
  pub at_ptr1 : g.ptr1 ≡ (31 + k) % 34
  pub holds : (j : ℕ) → j < 34 → g.words ((64 + k - j) % 34) ≡ get_or past j 0

wrapped : (i k p : ℕ) → p ≡ (i + k) % 34 → (if leb 34 (p + 1) then 0 else p + 1) ≡ (i + suc k) % 34
wrapped i k p at = elim (Bool-cases (leb 34 (p + 1))) [
  | inl e ↦ let l : 34 ≤ p + 1 = ground arith in rw e (omega arith)
  | inr e ↦ let l : p + 1 < 34 = ground arith in rw e (omega arith)
]

kept :
    (k : ℕ) (past : List ℕ) (g : Rng)
    → IsRing k past g
    → (sum : ℕ) → (g.words g.ptr1 + g.words g.ptr0) % 2 ^ 32 ≡ sum
    → (j : ℕ) → j < 34
    → update g.words g.ptr1 ((g.words g.ptr1 + g.words g.ptr0) % 2 ^ 32) ((64 + suc k - j) % 34)
      ≡ get_or (sum ∷ past) j 0
kept k past g ok sum same zero h =
    let at : ((64 + suc k - 0) % 34 == g.ptr1) ≡ true = ground (arith, ok.at_ptr1) in rw at same
kept k past g ok sum same (suc j) h =
    let far : ((64 + suc k - suc j) % 34 == g.ptr1) ≡ false = ground (arith, ok.at_ptr1) in
    let there : (64 + suc k - suc j) % 34 ≡ (64 + k - j) % 34 = omega arith in
    rw far (ap g.words there ∙ ok.holds j (omega arith))

step-IsRing :
    (k : ℕ) (past : List ℕ) (g : Rng)
    → IsRing k past g
    → let sum = (get_or past 33 0 + get_or past 27 0) % 2 ^ 32 in
      ((next_rand g).0 ≡ sum / 2) × IsRing (suc k) (sum ∷ past) (next_rand g).1
unfolding next_rand
step-IsRing k past g ok =
    let sum = (get_or past 33 0 + get_or past 27 0) % 2 ^ 32 in
    let w1 : g.words g.ptr1 ≡ get_or past 33 0 =
      ap g.words (omega (arith, ok.at_ptr1)) ∙ ok.holds 33 (omega arith) in
    let w0 : g.words g.ptr0 ≡ get_or past 27 0 =
      ap g.words (omega (arith, ok.at_ptr0)) ∙ ok.holds 27 (omega arith) in
    let same : (g.words g.ptr1 + g.words g.ptr0) % 2 ^ 32 ≡ sum = omega (arith, w1, w0) in
    (
      ap (λ x. x / 2) same,
      record {
        at_ptr0 = wrapped 3 k g.ptr0 ok.at_ptr0;
        at_ptr1 = wrapped 31 k g.ptr1 ok.at_ptr1;
        holds = kept k past g ok sum same;
      },
    )

skip_rands-IsRing :
    (k : ℕ) (past : List ℕ) (g : Rng) → IsRing 0 past g → IsRing k (history k past) (skip_rands k g)
unfolding skip_rands history
skip_rands-IsRing zero past g ok = ok
skip_rands-IsRing (suc k) past g ok =
    (step-IsRing k (history k past) (skip_rands k g) (skip_rands-IsRing k past g ok)).1

skip_rands-add : (k m : ℕ) (g : Rng) → skip_rands k (skip_rands m g) ≡ skip_rands (k + m) g
unfolding skip_rands
skip_rands-add zero m g = ap (λ n. skip_rands n g) (omega arith)
skip_rands-add (suc k) m g =
    let n : suc (k + m) ≡ suc k + m = omega arith in
    ap (λ g. (next_rand g).1) (skip_rands-add k m g) ∙ ap (λ n. skip_rands n g) n

-- The words of a ring from place 30 backwards.
abbrev pub backwards : (ℕ → ℕ) → ℕ → ℕ → List ℕ
backwards words j zero = []
backwards words j (suc n) = words ((64 - j) % 34) ∷ backwards words (j + 1) n

get_or-backwards :
    (words : ℕ → ℕ) (i n j k : ℕ)
    → j < n
    → k ≡ i + j
    → get_or (backwards words i n) j 0 ≡ words ((64 - k) % 34)
get_or-backwards words i zero j k h e = absurd (omega arith)
get_or-backwards words i (suc n) zero k h e = ap (λ m. words ((64 - m) % 34)) (omega (arith, e))
get_or-backwards words i (suc n) (suc j) k h e =
    get_or-backwards words (i + 1) n j k (omega arith) (omega (arith, e))

-- What `srand` starts with.
abbrev pub seeded : ℕ → Rng
seeded seed = record {
  init_done = true;
  words = seed_words (if seed == 0 then 1 else seed);
  ptr0 = 3;
  ptr1 = 31;
}

abbrev pub first_words : ℕ → List ℕ
first_words seed = backwards (seed_words (if seed == 0 then 1 else seed)) 0 34

seeded-IsRing : (seed : ℕ) → IsRing 0 (first_words seed) (seeded seed)
seeded-IsRing seed = record {
  at_ptr0 = refl;
  at_ptr1 = refl;
  holds = λ j h.
      let at : 64 - j ≡ 64 + 0 - j = omega arith in
      ap (λ m. (seeded seed).words (m % 34)) (sym at)
      ∙ sym (get_or-backwards (seeded seed).words 0 34 j j h (omega arith));
}

skip_rands-init_done : (k : ℕ) (g : Rng) → (skip_rands k g).init_done ≡ g.init_done
unfolding skip_rands next_rand
skip_rands-init_done zero g = refl
skip_rands-init_done (suc k) g = skip_rands-init_done k g

next_rand-history :
    (k : ℕ) (past : List ℕ) (g : Rng)
    → IsRing 0 past g
    → (next_rand (skip_rands k g)).0 ≡ get_or (history (suc k) past) 0 0 / 2
unfolding history
next_rand-history k past g ok =
    (step-IsRing k (history k past) (skip_rands k g) (skip_rands-IsRing k past g ok)).0

next_rand_bounds : (g : Rng) → (next_rand g).0 ≤ 2147483647
unfolding next_rand
next_rand_bounds g = omega arith

rand_ready : (g : Rng) → g.init_done ≡ true → rand g ≡ next_rand g
unfolding rand
rand_ready g ready = ap (λ b. next_rand (if b then g else srand 1 g)) ready

rand_unready : (g : Rng) → g.init_done ≡ false → rand g ≡ next_rand (srand 1 g)
unfolding rand
rand_unready g unset = ap (λ b. next_rand (if b then g else srand 1 g)) unset

srand-seeded :
    (seed k : ℕ) (g : Rng) → skip_rands k (srand seed g) ≡ skip_rands (k + 310) (seeded seed)
unfolding srand
srand-seeded seed k g = skip_rands-add k 310 (seeded seed)

ready_after :
    (seed k : ℕ) (g : Rng)
    → rand (skip_rands k (srand seed g)) ≡ next_rand (skip_rands (k + 310) (seeded seed))
ready_after seed k g =
    ap rand (srand-seeded seed k g)
    ∙ rand_ready (skip_rands (k + 310) (seeded seed)) (skip_rands-init_done (k + 310) (seeded seed))

srand-init_done : (seed : ℕ) (g : Rng) → (srand seed g).init_done ≡ true
unfolding srand
srand-init_done seed g = skip_rands-init_done 310 (seeded seed)

-- After `srand` and `k` more calls, `rand` gives half of the word 311 + k places behind the 34 that
-- the seed stands for, in the sequence in which each word is the sum of the words 34 and 28 places
-- before it. It is RAND_MAX at most. Without a call of `srand` the seed is 1.
pub rand-srand :
    (seed k : ℕ) (g fresh : Rng)
    → fresh.init_done ≡ false
    → ((rand (skip_rands k (srand seed g))).0
        ≡ get_or (history (suc (k + 310)) (first_words seed)) 0 0 / 2)
      × ((rand (skip_rands k (srand seed g))).0 ≤ 2147483647)
      × (rand fresh ≡ rand (srand 1 fresh))
rand-srand seed k g fresh unset =
    let e = ap (λ r. r.0) (ready_after seed k g) in
    (
      e ∙ next_rand-history (k + 310) (first_words seed) (seeded seed) (seeded-IsRing seed),
      omega (arith, e, next_rand_bounds (skip_rands (k + 310) (seeded seed))),
      rand_unready fresh unset ∙ sym (rand_ready (srand 1 fresh) (srand-init_done 1 fresh)),
    )
