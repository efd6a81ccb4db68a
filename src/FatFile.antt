-- ===== src/FatFile.antt =====
-- Open files of src/fsfat.c: reading and seeking. -1 for a node that is no file is left to the layer
-- above, and `none` stands for a copy of a negative count of bytes.
pub mod Contents
pub mod Reading
pub mod Seeking
mod Tests
use Prim.Native.Nat.{bit_and}
use boss.Prelude.{
  ℕ, zero, suc, ◌+◌, ◌-◌, ◌*◌, ◌/◌, ◌%◌, ◌^◌, Bool, true, false, Option, none, some, List, [], ◌++◌,
  ltb, leb, ◌==◌, if◌then◌else◌, ℤ, pos, negsuc, ◌+ℤ◌,
}
use boss.Fat.{FatFs, next_cluster, find_cluster, read_cluster, as_addr}
use boss.Memfile.{Whence, seek_set, seek_cur, seek_end, other_whence, bytes_from}

-- `struct fat_file`; a negative `cur_clust` is `none`.
pub record FatFile : Type 0 where
  pub size_bytes : ℕ
  pub first_clust : ℕ
  pub cur_pos : ℕ
  pub cur_clust : Option ℕ
  pub clustbuf : ℕ → ℕ
  pub buf_valid : Bool

-- `init_file`, for the size and the two halves of the cluster number of a directory entry.
pub init_file : ℕ → ℕ → ℕ → (ℕ → ℕ) → FatFile
init_file size low high buf = record {
  size_bytes = size;
  first_clust = low + high * 2 ^ 16;
  cur_pos = 0;
  cur_clust = some (low + high * 2 ^ 16);
  clustbuf = buf;
  buf_valid = false;
}

-- `size_bytes + offs`, which the code adds in 32 bits without a sign: a place before the start of the
-- file comes out near 2^32.
pub from_end : ℕ → ℤ → ℕ
from_end size (pos n) = (size + n) % 2 ^ 32
from_end size (negsuc n) = (size + (2 ^ 32 - 1 - n)) % 2 ^ 32

-- Where `seek` goes; `none` is the default case.
pub seek_pos : ℤ → Whence → FatFile → Option ℤ
seek_pos offs seek_set f = some offs
seek_pos offs seek_cur f = some (pos f.cur_pos +ℤ offs)
seek_pos offs seek_end f = some (pos (from_end f.size_bytes offs))
seek_pos offs other_whence f = none

-- Bytes that a round has copied, in front of those of the rounds behind it.
abbrev pub prepend : List ℕ → Option (List ℕ × FatFile) → Option (List ℕ × FatFile)
prepend bytes none = none
prepend bytes (some (rest, f)) = some (bytes ++ rest, f)

module _ (fs : FatFs) where
  -- The end of `seek`, for a position that is not negative.
  pub move_to : ℕ → FatFile → FatFile
  move_to new_pos f =
      let cur_idx : ℕ = f.cur_pos / 2 ^ fs.clust_shift in
      let new_idx : ℕ = new_pos / 2 ^ fs.clust_shift in
      if new_idx == cur_idx then record f { cur_pos = new_pos } else record f {
        cur_pos = new_pos;
        cur_clust =
            if ltb new_idx cur_idx
            then find_cluster fs new_idx (some f.first_clust)
            else find_cluster fs (new_idx - cur_idx) f.cur_clust;
        buf_valid = false;
      }

  pub seek : ℤ → Whence → FatFile → ℤ × FatFile
  seek offs whence f = elim (seek_pos offs whence f) [
    | none ↦ (negsuc 0, f)
    | some (pos n) ↦ (pos 0, move_to n f)
    | some (negsuc n) ↦ (pos 0, move_to 0 f)
  ]

  -- The buffer after `read` has filled it if it must; a failure to read is not seen.
  pub fill_buffer : (ℕ → ℕ → Option (ℕ → ℕ)) → ℕ → FatFile → ℕ → ℕ
  fill_buffer disk clust f =
      if f.buf_valid
      then f.clustbuf
      else elim (read_cluster disk fs clust) [ none ↦ f.clustbuf | some bytes ↦ bytes ]

  -- How many bytes a round of `read` copies, where the position is not past the end.
  pub round_len : ℕ → FatFile → ℕ
  round_len left f =
      let buf_left : ℕ = fs.cluster_size * 512 - bit_and f.cur_pos fs.clust_mask in
      let len = if ltb buf_left left then buf_left else left in
      if ltb f.size_bytes (f.cur_pos + len) then f.size_bytes - f.cur_pos else len

  -- The loop of `read` with `left` bytes to go in the cluster `clust`. Each round but the last copies
  -- at least one byte, so that `left` rounds are enough.
  pub read_loop : ℕ → (ℕ → ℕ → Option (ℕ → ℕ)) → ℕ → ℕ → FatFile → Option (List ℕ × FatFile)
  read_loop zero disk left clust f = some ([], f)
  read_loop (suc fuel) disk left clust f =
      let buf = fill_buffer disk clust f in
      let bytes = bytes_from buf (bit_and f.cur_pos fs.clust_mask) (round_len left f) in
      let new_pos : ℕ = f.cur_pos + round_len left f in
      let moved = record f { cur_pos = new_pos; clustbuf = buf; buf_valid = true } in
      elim (left == 0) [
        | true ↦ some ([], f)
        | false ↦ elim (ltb f.size_bytes f.cur_pos) [
          | true ↦ none
          | false ↦ elim (leb f.size_bytes new_pos) [
            | true ↦ some (bytes, record moved { cur_clust = none; buf_valid = false })
            | false ↦ elim (new_pos / 2 ^ fs.clust_shift == f.cur_pos / 2 ^ fs.clust_shift) [
              | true ↦ prepend bytes (read_loop fuel disk (left - round_len left f) clust moved)
              | false ↦ elim (next_cluster fs clust) [
                | none ↦ some (bytes, record moved { cur_clust = none; buf_valid = false })
                | some c ↦ prepend bytes (
                    read_loop fuel disk (left - round_len left f) c
                      (record moved { cur_clust = some c; buf_valid = false }))
              ]
            ]
          ]
        ]
      ]

  pub read : (ℕ → ℕ → Option (ℕ → ℕ)) → ℕ → FatFile → Option (List ℕ × FatFile)
  read disk sz f = elim f.cur_clust [
    | none ↦ some ([], f)
    | some clust ↦ read_loop sz disk sz clust f
  ]
