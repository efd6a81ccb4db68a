-- ===== src/Fat/Chain.antt =====
-- Chains of clusters in the allocation table of src/fsfat.c.
use boss.Prelude.{ℕ, zero, suc, ◌+◌, ◌<◌, ◌≡◌, some, arith}
use boss.Fat.{FatFs, next_cluster, find_cluster}

-- The first `count` clusters of a chain, by their position.
abbrev pub Linked : FatFs → (ℕ → ℕ) → ℕ → Type 0
Linked fs cluster count =
    (n : ℕ) → n + 1 < count → next_cluster fs (cluster n) ≡ some (cluster (n + 1))

pub find_cluster-Linked :
    (fs : FatFs) (cluster : ℕ → ℕ) (count n m : ℕ)
    → Linked fs cluster count
    → m + n < count
    → find_cluster fs n (some (cluster m)) ≡ some (cluster (m + n))
unfolding find_cluster
find_cluster-Linked fs cluster count zero m h k = let z : m + 0 ≡ m = omega arith in rw z
find_cluster-Linked fs cluster count (suc n) m h k =
    let s : m + suc n ≡ m + 1 + n = omega arith in
    rw (h m (omega arith), find_cluster, s)
      (find_cluster-Linked fs cluster count n (m + 1) h (omega arith))
