-- ===== src/FatDir/Loading.antt =====
-- Loading a directory of src/fsfat.c along its chain of clusters.
use boss.Prelude.{ℕ, zero, suc, ◌+◌, ◌<◌, ◌≡◌, refl, Option, none, some, List, [], ◌∷◌, arith}
use boss.Fat.{FatFs, next_cluster, read_cluster}
use boss.Fat.Chain.{Linked}
use boss.FatDir.{load_clusters}

-- `n` blocks from `i` on.
abbrev pub blocks_from : (ℕ → ℕ → ℕ) → ℕ → ℕ → List (ℕ → ℕ)
blocks_from block i zero = []
blocks_from block i (suc n) = block i ∷ blocks_from block (i + 1) n

module _ (disk : ℕ → ℕ → Option (ℕ → ℕ)) (fs : FatFs) (cluster : ℕ → ℕ) (block : ℕ → ℕ → ℕ) where
  load_from :
      (count i n fuel : ℕ)
      → i + n + 1 ≡ count
      → Linked fs cluster count
      → next_cluster fs (cluster (i + n)) ≡ none
      → ((k : ℕ) → k < count → read_cluster disk fs (cluster k) ≡ some (block k))
      → n < fuel
      → load_clusters fuel disk fs (cluster i) ≡ some (some (blocks_from block i (suc n)))
  unfolding load_clusters
  load_from count i n zero e link end read h = elim h [ ]
  load_from count i zero (suc fuel) e link end read h =
      let here : i + 0 ≡ i = omega arith in
      rw (read i (omega arith), (rw here at end), load_clusters)
  load_from count i (suc n) (suc fuel) e link end read h =
      let place : i + suc n ≡ i + 1 + n = omega arith in
      let rest =
        load_from count (i + 1) n fuel (omega arith) link (rw place at end) read (omega arith) in
      rw (read i (omega arith), link i (omega arith), rest, load_clusters)

  -- On a chain of `n + 1` clusters that ends and can be read, the loop of `load_dir` ends after as many
  -- rounds and gives all of the clusters in the order of the chain.
  pub load_clusters-Linked :
      (n fuel : ℕ)
      → Linked fs cluster (n + 1)
      → next_cluster fs (cluster n) ≡ none
      → ((k : ℕ) → k < n + 1 → read_cluster disk fs (cluster k) ≡ some (block k))
      → n < fuel
      → load_clusters fuel disk fs (cluster 0) ≡ some (some (blocks_from block 0 (suc n)))
  load_clusters-Linked n fuel link end read h =
      let here : 0 + n ≡ n = omega arith in
      load_from (n + 1) 0 n fuel (omega arith) link (rw here end) read h

  -- A chain that never ends, which on a disk of any size is one with a cycle, is followed forever: no
  -- number of rounds is enough.
  pub load_clusters_endless :
      (i fuel : ℕ)
      → ((k : ℕ) → next_cluster fs (cluster k) ≡ some (cluster (k + 1)))
      → ((k : ℕ) → read_cluster disk fs (cluster k) ≡ some (block k))
      → load_clusters fuel disk fs (cluster i) ≡ none
  unfolding load_clusters
  load_clusters_endless i zero link read = refl
  load_clusters_endless i (suc fuel) link read =
      rw (read i, link i, load_clusters_endless (i + 1) fuel link read, load_clusters)
