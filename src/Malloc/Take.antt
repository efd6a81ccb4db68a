-- ===== src/Malloc/Take.antt =====
-- src/libc/malloc.c: what `malloc` takes from the pool.
use boss.Prelude.{
  ℕ, ◌+◌, ◌-◌, ◌*◌, ◌%◌, ◌^◌, ◌≤◌, ◌<◌, ◌≡◌, inl, inr, true, Option, none, some, List, [], ◌∷◌, ltb,
  leb, ◌&&◌, ◌||◌, Bool-cases, arith,
}
use boss.Malloc.{Block, block, desc_size, take_block}
use boss.Malloc.Pool.{in_block, covers, Sorted, Apart, ApartAll, Sorted-weaken, ApartAll-of_before}

-- What a successful search leaves: a pool in order, apart from the block taken; and what was apart
-- from the pool is apart from both.
pub record Taken (lo total : ℕ) (pool : List Block) (a : ℕ) (after : List Block) : Type 0 where
  pub from : lo ≤ a
  pub sorted : Sorted lo after
  pub apart : ApartAll (block a total) after
  pub bytes : (x : ℕ) → (in_block (block a total) x || covers after x) ≡ true → covers pool x ≡ true
  pub others : (b : Block) → ApartAll b pool → Apart b (block a total) × ApartAll b after

abbrev pub IsTaken : ℕ → ℕ → List Block → Option (ℕ × List Block) → Type 0
IsTaken lo total pool none = Unit
IsTaken lo total pool (some (a, after)) = Taken lo total pool a after

-- The first block gives all of itself.
take_whole :
    (lo total : ℕ) (b : Block) (bs : List Block)
    → total ≤ b.size
    → Sorted lo (b ∷ bs)
    → Taken lo total (b ∷ bs) b.addr bs
take_whole lo total b bs h s = record {
  from = s.0;
  sorted = Sorted-weaken lo (b.addr + b.size) bs (omega (arith, s.0)) s.2;
  apart = ApartAll-of_before (block b.addr total) (b.addr + b.size) bs (omega arith) s.2;
  bytes = λ x e. ground arith;
  others = λ c a. (ground arith, a.1);
}

-- The first block gives its upper part.
take_upper :
    (lo total : ℕ) (b : Block) (bs : List Block)
    → total + desc_size ≤ b.size
    → Sorted lo (b ∷ bs)
    → Taken lo total (b ∷ bs) (b.addr + b.size - total) (block b.addr (b.size - total) ∷ bs)
take_upper lo total b bs h s =
    let a = b.addr + b.size - total in
    record {
      from = omega (arith, s.0);
      sorted = (
        s.0,
        omega arith,
        Sorted-weaken (b.addr + (b.size - total)) (b.addr + b.size) bs (omega arith) s.2,
      );
      apart = (
        inr (omega arith),
        ApartAll-of_before (block a total) (b.addr + b.size) bs (omega arith) s.2,
      );
      bytes = λ x e. ground arith;
      others = λ c ap. (ground arith, (ground arith, ap.1));
    }

take_later :
    (lo total : ℕ) (b : Block) (bs : List Block) (a : ℕ) (after : List Block)
    → Sorted lo (b ∷ bs)
    → Taken (b.addr + b.size) total bs a after
    → Taken lo total (b ∷ bs) a (b ∷ after)
take_later lo total b bs a after s t = record {
  from = omega (arith, s.0, t.from);
  sorted = (s.0, s.1, t.sorted);
  apart = (inr t.from, t.apart);
  bytes = λ x e. ground (arith, t.bytes x);
  others = λ c ap. let later = t.others c ap.1 in (later.0, (ap.0, later.1));
}

take_rest :
    (lo total : ℕ) (b : Block) (bs : List Block) (r : Option (ℕ × List Block))
    → Sorted lo (b ∷ bs)
    → IsTaken (b.addr + b.size) total bs r
    → IsTaken lo total (b ∷ bs) (elim r [ none ↦ none | some (a, after) ↦ some (a, b ∷ after) ])
take_rest lo total b bs none s t = tt
take_rest lo total b bs (some (a, after)) s t = take_later lo total b bs a after s t

pub take_block-IsTaken :
    (lo total : ℕ) (pool : List Block)
    → total + 2 * desc_size < 2 ^ 32
    → Sorted lo pool
    → IsTaken lo total pool (take_block total pool)
unfolding take_block
take_block-IsTaken lo total [] h s = tt
take_block-IsTaken lo total (b ∷ bs) h s =
    elim (Bool-cases (leb total b.size && ltb b.size ((total + 24) % 2 ^ 32))) [
      | inl fits ↦ rw fits (take_whole lo total b bs (ground arith) s)
      | inr no_fit ↦ elim (Bool-cases (ltb total b.size)) [
        | inl larger ↦ rw (no_fit, larger) (take_upper lo total b bs (ground arith) s)
        | inr smaller ↦
            rw (no_fit, smaller)
              (take_rest lo total b bs (take_block total bs) s
                (take_block-IsTaken (b.addr + b.size) total bs h s.2))
      ]
    ]
