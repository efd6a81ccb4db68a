-- ===== src/Rand.antt =====
-- Random numbers, src/libc/rand.c. The ring of 34 words is a function of the index, and the pointers
-- into it are indices. An `int32_t` is kept as the word of its bits.
pub mod Ring
mod Tests
use boss.Prelude.{
  ℕ, zero, suc, ◌+◌, ◌-◌, ◌*◌, ◌/◌, ◌%◌, ◌^◌, Bool, true, false, ltb, leb, ◌==◌, if◌then◌else◌,
  update,
}

pub record Rng : Type 0 where
  pub init_done : Bool
  pub words : ℕ → ℕ
  pub ptr0 : ℕ
  pub ptr1 : ℕ

-- `rand` behind its test of `init_done`.
unfoldable pub next_rand : Rng → ℕ × Rng
next_rand g =
    let sum = (g.words g.ptr1 + g.words g.ptr0) % 2 ^ 32 in
    (
      sum / 2,
      record g {
        words = update g.words g.ptr1 sum;
        ptr0 = if leb 34 (g.ptr0 + 1) then 0 else g.ptr0 + 1;
        ptr1 = if leb 34 (g.ptr1 + 1) then 0 else g.ptr1 + 1;
      },
    )

-- The remainder by RAND_MAX of a product that wraps around, made positive: below 2^31 the product
-- stands for itself, and from there on for the negative number that is `2 ^ 32` less.
unfoldable pub next_seed : ℕ → ℕ
next_seed w =
    let p = 16807 * w % 2 ^ 32 in
    let r = (2 ^ 32 - p) % (2 ^ 31 - 1) in
    if ltb p (2 ^ 31) then p % (2 ^ 31 - 1) else if r == 0 then 0 else 2 ^ 31 - 1 - r

-- The words that `srand` fills in: 31 from the seed, and the first three of them again.
unfoldable pub seed_word : ℕ → ℕ → ℕ
seed_word seed zero = seed
seed_word seed (suc i) = next_seed (seed_word seed i)

unfoldable pub seed_words : ℕ → ℕ → ℕ
seed_words seed i = if ltb i 31 then seed_word seed i else seed_word seed (i - 31)

-- Calls of `rand` whose results are not used.
unfoldable pub skip_rands : ℕ → Rng → Rng
skip_rands zero g = g
skip_rands (suc k) g = (next_rand (skip_rands k g)).1

unfoldable pub srand : ℕ → Rng → Rng
srand seed g = skip_rands 310 (record {
  init_done = true;
  words = seed_words (if seed == 0 then 1 else seed);
  ptr0 = 3;
  ptr1 = 31;
})

unfoldable pub rand : Rng → ℕ × Rng
rand g = next_rand (if g.init_done then g else srand 1 g)
