-- ===== src/FatFile/Reading.antt =====
-- Reading from a file of src/fsfat.c against the bytes that its clusters hold.
use native.Mathlib.Nat.{mod-lt, mod-add-div'}
use native.Mathlib.Decide.{dec_lt}
use Prim.Native.Nat.{bit_and}
use boss.Prelude.{
  ℕ, zero, suc, ◌+◌, ◌-◌, ◌*◌, ◌/◌, ◌%◌, ◌^◌, ◌≤◌, ◌<◌, min, ◌≡◌, refl, sym, ◌∙◌, true, false, inl,
  inr, ◌⊎◌, Bool-cases, Option, none, some, List, [], ltb, leb, ◌==◌, ==_iff, if◌then◌else◌, arith,
}
use boss.Bits.{pow_pos, bit_and-ones}
use boss.Memfile.{bytes_from}
use boss.Memfile.RoundTrip.{bytes_from-append}
use boss.Fat.{FatFs, next_cluster, read_cluster}
use boss.FatFile.{FatFile, fill_buffer, round_len, read_loop, read, prepend}
use boss.FatFile.Contents.{joined, bytes_from-block, div-same, div-next}

-- The bytes of a cluster are a power of two, as the shift and the mask take them to be.
pub record IsMounted (fs : FatFs) : Type 0 where
  pub bytes : fs.cluster_size * 512 ≡ 2 ^ fs.clust_shift
  pub mask : fs.clust_mask ≡ 2 ^ fs.clust_shift - 1

-- The clusters of a file of `size` bytes, from `first` on, and what the disk has there.
pub record Stores (disk : ℕ → ℕ → Option (ℕ → ℕ)) (fs : FatFs) (first size : ℕ) (cluster : ℕ → ℕ)
    (block : ℕ → ℕ → ℕ) : Type 0 where
  pub starts : cluster 0 ≡ first
  pub linked :
      (n : ℕ)
      → (n + 1) * 2 ^ fs.clust_shift < size
      → next_cluster fs (cluster n) ≡ some (cluster (n + 1))
  pub stored :
      (n : ℕ) → n * 2 ^ fs.clust_shift < size → read_cluster disk fs (cluster n) ≡ some (block n)

module _ (disk : ℕ → ℕ → Option (ℕ → ℕ)) (fs : FatFs) (m : IsMounted fs) (first size : ℕ)
    (cluster : ℕ → ℕ) (block : ℕ → ℕ → ℕ) (s : Stores disk fs first size cluster block) where
  abbrev csz : ℕ
  csz = 2 ^ fs.clust_shift

  abbrev index : ℕ → ℕ
  index p = p / 2 ^ fs.clust_shift

  -- What the whole file holds, past its end too.
  abbrev pub contents : ℕ → ℕ
  contents = joined block (2 ^ fs.clust_shift)

  -- The file, before its end: its cluster is that of the position, and the buffer, where it is valid,
  -- has that cluster.
  abbrev pub IsAt : FatFile → Type 0
  IsAt f =
      ((f.size_bytes ≡ size) × (f.first_clust ≡ first))
      × ((f.cur_pos < size) × (f.cur_clust ≡ some (cluster (index f.cur_pos))))
      × (if f.buf_valid then f.clustbuf ≡ block (index f.cur_pos) else (first ≡ first))

  -- The file at its end.
  abbrev pub IsEnded : FatFile → Type 0
  IsEnded f =
      ((f.size_bytes ≡ size) × (f.first_clust ≡ first))
      × ((f.cur_pos ≡ size) × (f.cur_clust ≡ none))
      × (f.buf_valid ≡ false)

  start-le : (p : ℕ) → index p * csz ≤ p
  start-le p = omega (arith, mod-add-div' p csz)

  fill_buffer-block :
      (f : FatFile)
      → IsAt f
      → fill_buffer fs disk (cluster (index f.cur_pos)) f ≡ block (index f.cur_pos)
  unfolding fill_buffer
  fill_buffer-block f (_, (h, _), cached) = elim (Bool-cases f.buf_valid) [
    | inl e ↦ rw e (rw e at cached)
    | inr e ↦ rw (e, s.stored (index f.cur_pos) (omega (arith, start-le f.cur_pos)))
  ]

  offset_lem : (f : FatFile) → bit_and f.cur_pos fs.clust_mask ≡ f.cur_pos % csz
  offset_lem f = rw m.mask (bit_and-ones fs.clust_shift f.cur_pos)

  round_len_bounds :
      (f : FatFile) (left : ℕ)
      → IsAt f
      → 0 < left
      → (f.cur_pos % csz + round_len fs left f ≤ csz)
        × (0 < round_len fs left f)
        × (round_len fs left f ≤ left)
        × (f.cur_pos + round_len fs left f ≤ size)
  unfolding round_len
  round_len_bounds f left ((e, _), (h, _), _) some_left =
      let inside : f.cur_pos % csz < csz = mod-lt f.cur_pos (pow_pos fs.clust_shift) in
      rw (offset_lem f, m.bytes, e) (ground arith)

  -- What one round copies.
  round_bytes :
      (f : FatFile) (left : ℕ)
      → IsAt f
      → 0 < left
      → bytes_from
          (fill_buffer fs disk (cluster (index f.cur_pos)) f)
          (bit_and f.cur_pos fs.clust_mask)
          (round_len fs left f)
        ≡ bytes_from contents f.cur_pos (round_len fs left f)
  round_bytes f left at some_left =
      let bounds = round_len_bounds f left at some_left in
      rw (fill_buffer-block f at, offset_lem f)
        (sym (bytes_from-block block csz f.cur_pos (round_len fs left f) bounds.0))

  -- What a read of `left` bytes from `f` on is to give.
  abbrev pub Gives : ℕ → FatFile → Option (List ℕ × FatFile) → Type 0
  Gives left f result =
      (f' : FatFile) × (result
        ≡ some (bytes_from contents f.cur_pos (min left (size - f.cur_pos)), f'))
      × (f'.cur_pos ≡ f.cur_pos + min left (size - f.cur_pos))
      × (IsAt f' ⊎ IsEnded f')

  -- A round that is followed by others.
  prepend-Gives :
      (f g : FatFile) (left len : ℕ) (rest : Option (List ℕ × FatFile))
      → len ≤ left
      → f.cur_pos + len ≤ size
      → g.cur_pos ≡ f.cur_pos + len
      → Gives (left - len) g rest
      → Gives left f (prepend (bytes_from contents f.cur_pos len) rest)
  prepend-Gives f g left len rest h k e (f', eq, p, at) =
      let more : ℕ = min (left - len) (size - g.cur_pos) in
      let total : min left (size - f.cur_pos) ≡ len + more = omega arith in
      (
        f',
        rw (eq, total, bytes_from-append contents f.cur_pos len more, e),
        rw total (omega arith),
        at,
      )

  abbrev filled : FatFile → ℕ → ℕ
  filled f = fill_buffer fs disk (cluster (index f.cur_pos)) f

  -- The file after a round.
  abbrev moved : ℕ → FatFile → FatFile
  moved left f = record f {
    cur_pos = f.cur_pos + round_len fs left f;
    clustbuf = filled f;
    buf_valid = true;
  }

  abbrev copied : ℕ → FatFile → List ℕ
  copied left f = bytes_from (filled f) (bit_and f.cur_pos fs.clust_mask) (round_len fs left f)

  module _ (fuel left : ℕ) (f : FatFile) (at : IsAt f) (some_left : 0 < left) where
    go_on : ((left == 0) ≡ false) × (ltb f.size_bytes f.cur_pos ≡ false)
    go_on = let (sizes, here, _) = at in (ground arith, ground (arith, sizes.0, here.0))

    round_last :
        leb f.size_bytes (f.cur_pos + round_len fs left f) ≡ true
        → Gives left f (read_loop fs (suc fuel) disk left (cluster (index f.cur_pos)) f)
    unfolding read_loop
    round_last last =
        let b = round_len_bounds f left at some_left in
        let end_at : f.cur_pos + round_len fs left f ≡ size = ground (arith, at.0.0) in
        let all : min left (size - f.cur_pos) ≡ round_len fs left f = omega arith in
        let ended = record (moved left f) { cur_clust = none; buf_valid = false } in
        let step : read_loop fs (suc fuel) disk left (cluster (index f.cur_pos)) f
            ≡ some (copied left f, ended) =
          rw (go_on.0, go_on.1, last, read_loop) in
        rw all (
          ended,
          step ∙ rw (round_bytes f left at some_left),
          refl,
          inr (at.0, (end_at, refl), refl),
        )

    round_same :
        leb f.size_bytes (f.cur_pos + round_len fs left f) ≡ false
        → (index (f.cur_pos + round_len fs left f) == index f.cur_pos) ≡ true
        → Gives (left - round_len fs left f) (moved left f) (
            read_loop fs fuel disk
              (left - round_len fs left f)
              (cluster (index f.cur_pos))
              (moved left f))
        → Gives left f (read_loop fs (suc fuel) disk left (cluster (index f.cur_pos)) f)
    unfolding read_loop
    round_same more same rest =
        let b = round_len_bounds f left at some_left in
        let step : read_loop fs (suc fuel) disk left (cluster (index f.cur_pos)) f
            ≡ prepend (copied left f) (
                read_loop fs fuel disk (left - round_len fs left f) (cluster (index f.cur_pos))
                  (moved left f)) =
          rw (go_on.0, go_on.1, more, same, read_loop) in
        rw (step, round_bytes f left at some_left)
          (prepend-Gives f (moved left f) left (round_len fs left f) _ b.2 b.3 refl rest)

    -- The position has come to the next cluster.
    at_boundary :
        (index (f.cur_pos + round_len fs left f) == index f.cur_pos) ≡ false
        → index (f.cur_pos + round_len fs left f) ≡ index f.cur_pos + 1
    at_boundary other =
        let b = round_len_bounds f left at some_left in
        elim (dec_lt (f.cur_pos % csz + round_len fs left f) csz) [
          | yes inside ↦
              absurd (ground (arith, div-same csz f.cur_pos (round_len fs left f) inside))
          | no outside ↦
              div-next csz f.cur_pos (round_len fs left f) (pow_pos fs.clust_shift) (omega arith)
        ]

    round_next :
        leb f.size_bytes (f.cur_pos + round_len fs left f) ≡ false
        → (index (f.cur_pos + round_len fs left f) == index f.cur_pos) ≡ false
        → (c : ℕ) → next_cluster fs (cluster (index f.cur_pos)) ≡ some c
        → Gives
            (left - round_len fs left f)
            (record (moved left f) { cur_clust = some c; buf_valid = false })
            (read_loop fs fuel disk
              (left - round_len fs left f)
              c
              (record (moved left f) { cur_clust = some c; buf_valid = false }))
        → Gives left f (read_loop fs (suc fuel) disk left (cluster (index f.cur_pos)) f)
    unfolding read_loop
    round_next more other c link rest =
        let b = round_len_bounds f left at some_left in
        let g = record (moved left f) { cur_clust = some c; buf_valid = false } in
        let step : read_loop fs (suc fuel) disk left (cluster (index f.cur_pos)) f
            ≡ prepend (copied left f) (read_loop fs fuel disk (left - round_len fs left f) c g) =
          rw (go_on.0, go_on.1, more, other, link, read_loop) in
        rw (step, round_bytes f left at some_left)
          (prepend-Gives f g left (round_len fs left f) _ b.2 b.3 refl rest)

  stay :
      (left : ℕ) (f : FatFile) (result : Option (List ℕ × FatFile))
      → IsAt f
      → left ≡ 0
      → result ≡ some ([], f)
      → Gives left f result
  unfolding bytes_from
  stay left f result at e same =
      let z : min left (size - f.cur_pos) ≡ 0 = omega arith in rw z (f, same, omega arith, inl at)

  moved-IsAt :
      (left : ℕ) (f : FatFile)
      → IsAt f
      → f.cur_pos + round_len fs left f < size
      → index (f.cur_pos + round_len fs left f) ≡ index f.cur_pos
      → IsAt (moved left f)
  moved-IsAt left f at before same =
      (at.0, (before, at.1.1 ∙ rw same), fill_buffer-block f at ∙ rw same)

  read_loop-Gives :
      (fuel left : ℕ) (f : FatFile)
      → left ≤ fuel
      → IsAt f
      → Gives left f (read_loop fs fuel disk left (cluster (index f.cur_pos)) f)
  unfolding read_loop
  read_loop-Gives zero left f h at = stay left f _ at (omega arith) refl
  read_loop-Gives (suc fuel) left f h at = elim (Bool-cases (left == 0)) [
    | inl e ↦ stay left f _ at ((==_iff _ _).0 e) (rw (e, read_loop))
    | inr e ↦
        let some_left : 0 < left = ground arith in
        let b = round_len_bounds f left at some_left in
        let len = round_len fs left f in
        elim (Bool-cases (leb f.size_bytes (f.cur_pos + len))) [
          | inl last ↦ round_last fuel left f at some_left last
          | inr more ↦
              let before : f.cur_pos + len < size = ground (arith, at.0.0) in
              elim (Bool-cases (index (f.cur_pos + len) == index f.cur_pos)) [
                | inl same ↦
                    let here : index (f.cur_pos + len) ≡ index f.cur_pos = (==_iff _ _).0 same in
                    let at' = moved-IsAt left f at before here in
                    let rest = read_loop-Gives fuel (left - len) (moved left f) (omega arith) at' in
                    round_same fuel left f at some_left more same (rw here at rest)
                | inr other ↦
                    let next = at_boundary fuel left f at some_left other in
                    let start = start-le (f.cur_pos + len) in
                    let link = s.linked (index f.cur_pos) (rw (← next) (omega (arith, start))) in
                    let c = cluster (index f.cur_pos + 1) in
                    let g = record (moved left f) { cur_clust = some c; buf_valid = false } in
                    let at' : IsAt g = (at.0, (before, rw next), refl) in
                    let rest = read_loop-Gives fuel (left - len) g (omega arith) at' in
                    round_next fuel left f at some_left more other c link (rw next at rest)
              ]
        ]
  ]

  -- On a volume whose clusters are a power of two, for a file whose chain reaches its size and whose
  -- clusters can be read: `read` before the end copies the bytes asked for, as many as there are before the
  -- end, from the position on, through all the clusters that they are in. The position is then behind
  -- them, in the right cluster, or the file is at its end.
  pub read-Gives : (sz : ℕ) (f : FatFile) → IsAt f → Gives sz f (read fs disk sz f)
  unfolding read
  read-Gives sz f at = rw (at.1.1, read) (read_loop-Gives sz sz f (omega arith) at)
