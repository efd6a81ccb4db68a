-- ===== src/Rand/Tests.antt =====
-- Random numbers of src/libc/rand.c at a concrete seed.
use boss.Prelude.{◌/◌, ◌≤◌, ◌≡◌, refl, false, get_or}
use boss.Rand.{Rng, skip_rands, srand, rand, next_seed}
use boss.Rand.Ring.{history, first_words, rand-srand}

abbrev unset_rng : Rng
unset_rng = record { init_done = false; words = λ i. 0; ptr0 = 0; ptr1 = 0 }

-- Seed 0 is taken for 1.
rand-srand_example :
    ((rand (skip_rands 2 (srand 0 unset_rng))).0 ≡ get_or (history 313 (first_words 0)) 0 0 / 2)
    × ((rand (skip_rands 2 (srand 0 unset_rng))).0 ≤ 2147483647)
    × (rand unset_rng ≡ rand (srand 1 unset_rng))
rand-srand_example = rand-srand 0 2 unset_rng unset_rng refl

-- The second word of seed 1, and a product that wraps around to a negative number.
second_word : next_seed 1 ≡ 16807
unfolding next_seed
second_word = refl

wrapped_word : next_seed 200000 ≡ 1213916351
unfolding next_seed
wrapped_word = refl
