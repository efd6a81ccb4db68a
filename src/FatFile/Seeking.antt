-- ===== src/FatFile/Seeking.antt =====
-- Seeking in a file of src/fsfat.c.
use native.Mathlib.Nat.{mod-add-div', mul-le-mul_right}
use boss.Prelude.{
  ℕ, ◌+◌, ◌-◌, ◌*◌, ◌/◌, ◌^◌, ◌≤◌, ◌<◌, ◌≡◌, refl, sym, ◌∙◌, ap, true, false, inl, inr, ◌⊎◌,
  Bool-cases, Option, none, some, List, [], ltb, ◌==◌, ==_iff, ℤ, pos, arith,
}
use boss.Memfile.{Whence}
use boss.Fat.{FatFs, find_cluster}
use boss.Fat.Chain.{find_cluster-Linked}
use boss.FatFile.{FatFile, seek_pos, move_to, seek, read, read_loop}
use boss.FatFile.Reading.{IsMounted, Stores, IsAt, IsEnded}

module _ (disk : ℕ → ℕ → Option (ℕ → ℕ)) (fs : FatFs) (m : IsMounted fs) (first size : ℕ)
    (cluster : ℕ → ℕ) (block : ℕ → ℕ → ℕ) (s : Stores disk fs first size cluster block) where
  abbrev index : ℕ → ℕ
  index p = p / 2 ^ fs.clust_shift

  -- The chain as far as the cluster of a position in the file.
  find_from :
      (i n : ℕ)
      → n < size
      → i ≤ index n
      → find_cluster fs (index n - i) (some (cluster i)) ≡ some (cluster (index n))
  find_from i n h le =
      let there : i + (index n - i) ≡ index n = omega arith in
      let start = mod-add-div' n (2 ^ fs.clust_shift) in
      let link = λ (k : ℕ) (lt : k + 1 < index n + 1).
        let low : (k + 1) * 2 ^ fs.clust_shift ≤ index n * 2 ^ fs.clust_shift =
          mul-le-mul_right (2 ^ fs.clust_shift) (omega arith) in
        s.linked k (omega (arith, low, start)) in
      find_cluster-Linked fs cluster (index n + 1) (index n - i) i link (omega arith) ∙ rw there

  -- The chain from the start.
  find_first :
      (n : ℕ) → n < size → find_cluster fs (index n) (some first) ≡ some (cluster (index n))
  find_first n h =
      let whole : index n - 0 ≡ index n = omega arith in
      ap (λ c. find_cluster fs (index n) (some c)) (sym s.starts)
      ∙ (rw whole at (find_from 0 n h (omega arith)))

  move_to-pos : (n : ℕ) (f : FatFile) → (move_to fs n f).cur_pos ≡ n
  unfolding move_to
  move_to-pos n f = ground arith

  move_to-IsAt :
      (n : ℕ) (f : FatFile)
      → n < size
      → IsAt disk fs m first size cluster block s f
        ⊎ (IsEnded disk fs m first size cluster block s f × (index n < index size))
      → IsAt disk fs m first size cluster block s (move_to fs n f)
  unfolding move_to
  move_to-IsAt n f h (inl (sizes, (here, cur), cached)) =
      elim (Bool-cases (index n == index f.cur_pos)) [
        | inl e ↦
            let same : index n ≡ index f.cur_pos = (==_iff _ _).0 e in
            rw e (sizes, (h, cur ∙ rw same), rw (← same) at cached)
        | inr e ↦ elim (Bool-cases (ltb (index n) (index f.cur_pos))) [
          | inl back ↦ rw (e, back) (sizes, (h, rw sizes.1 (find_first n h)), refl)
          | inr on ↦
              let found = find_from (index f.cur_pos) n h (ground arith) in
              rw (e, on) (sizes, (h, rw cur found), refl)
        ]
      ]
  move_to-IsAt n f h (inr ((sizes, (here, cur), invalid), earlier)) =
      let other : (index n == index f.cur_pos) ≡ false = rw here (ground arith) in
      let back : ltb (index n) (index f.cur_pos) ≡ true = rw here (ground arith) in
      rw (other, back) (sizes, (h, rw sizes.1 (find_first n h)), refl)

  -- For a file whose chain reaches its size, and that is at a position before its end, seeking to a
  -- position before the end leaves it at that position, in the cluster that holds it, forwards and
  -- backwards. The same holds for a file that has been read to the end and has no cluster any more, if
  -- the position is in an earlier cluster than the end; the other positions are left out there.
  pub seek-IsAt :
      (offs : ℤ) (whence : Whence) (f : FatFile) (n : ℕ)
      → seek_pos offs whence f ≡ some (pos n)
      → n < size
      → IsAt disk fs m first size cluster block s f
        ⊎ (IsEnded disk fs m first size cluster block s f × (index n < index size))
      → (f' : FatFile) × (seek fs offs whence f ≡ (pos 0, f'))
        × (f'.cur_pos ≡ n)
        × IsAt disk fs m first size cluster block s f'
  unfolding seek
  seek-IsAt offs whence f n e h at =
      (move_to fs n f, rw (e, seek), move_to-pos n f, move_to-IsAt n f h at)

  read_ended : (sz : ℕ) (g : FatFile) → g.cur_clust ≡ none → read fs disk sz g ≡ some ([], g)
  unfolding read
  read_ended sz g e =
      let by_cluster : Option ℕ → Option (List ℕ × FatFile) =
        λ c. elim c [ none ↦ some ([], g) | some clust ↦ read_loop fs sz disk sz clust g ] in
      ap by_cluster e

  -- From the end of such a file, seeking back into the cluster of the end changes only the position:
  -- the file still has no cluster, so that reading any number of bytes gives none. In a file that is
  -- smaller than a cluster that is every position.
  pub seek-read_nothing :
      (offs : ℤ) (whence : Whence) (f : FatFile) (n sz : ℕ)
      → seek_pos offs whence f ≡ some (pos n)
      → IsEnded disk fs m first size cluster block s f
      → index n ≡ index size
      → read fs disk sz (seek fs offs whence f).1 ≡ some ([], (seek fs offs whence f).1)
  unfolding seek move_to
  seek-read_nothing offs whence f n sz e (sizes, (here, cur), invalid) same =
      let stays : (index n == index f.cur_pos) ≡ true = rw here (ground arith) in
      let g = record f { cur_pos = n } in
      let moved : move_to fs n f ≡ g = rw (stays, move_to) in
      let sought : seek fs offs whence f ≡ (pos 0, g) = rw (e, seek, moved) in
      rw sought (read_ended sz g cur)
