-- ===== src/Memfile/RoundTrip.antt =====
-- Reading back what was written to a file of src/fsmem.c.
use boss.Prelude.{
  ℕ, zero, suc, ◌+◌, ◌-◌, ◌<◌, ◌≤◌, ◌≡◌, refl, false, inl, inr, Bool-cases, Option, none, some,
  List, [], ◌∷◌, ltb, if◌then◌else◌, pos, arith, length, take, drop, ◌++◌, ◌⊎◌,
}
use boss.Memfile.{
  MemFile, OpenFile, file_node, seek_set, bytes_from, copy_in, read, read_file, write, write_at,
  new_max_size, seek, seek_to, failed,
}

-- The file's bytes are in memory, and the position is in the file or at its end.
abbrev pub IsOpen : OpenFile → Type 0
IsOpen f = (f.file.size ≤ f.file.max_size) × (f.cur_pos ≤ f.file.size)

copy_in-before : (mem : ℕ → ℕ) (i : ℕ) (bs : List ℕ) (j : ℕ) → j < i → copy_in mem i bs j ≡ mem j
unfolding copy_in
copy_in-before mem i [] j h = refl
copy_in-before mem i (b ∷ bs) j h = ground (arith, copy_in-before mem (i + 1) bs j)

copy_in-after :
    (mem : ℕ → ℕ) (i : ℕ) (bs : List ℕ) (j : ℕ) → i + length bs ≤ j → copy_in mem i bs j ≡ mem j
unfolding copy_in
copy_in-after mem i [] j h = refl
copy_in-after mem i (b ∷ bs) j h = ground (arith, copy_in-after mem (i + 1) bs j)

pub bytes_from-ext :
    (mem mem' : ℕ → ℕ) (i n : ℕ)
    → ((j : ℕ) → i ≤ j → j < i + n → mem j ≡ mem' j)
    → bytes_from mem i n ≡ bytes_from mem' i n
unfolding bytes_from
bytes_from-ext mem mem' i zero h = refl
bytes_from-ext mem mem' i (suc n) h =
    let rest = bytes_from-ext mem mem' (i + 1) n (λ j le lt. h j (omega arith) (omega arith)) in
    rw (h i (omega arith) (omega arith), rest)

bytes_from-copy_in :
    (mem : ℕ → ℕ) (i : ℕ) (bs : List ℕ) → bytes_from (copy_in mem i bs) i (length bs) ≡ bs
unfolding bytes_from copy_in
bytes_from-copy_in mem i [] = refl
bytes_from-copy_in mem i (b ∷ bs) =
    let head : copy_in mem i (b ∷ bs) i ≡ b = ground arith in
    let later =
      bytes_from-ext (copy_in mem i (b ∷ bs)) (copy_in mem (i + 1) bs) (i + 1) (length bs)
        (λ j le lt. ground arith) in
    rw (head, later, bytes_from-copy_in mem (i + 1) bs)

pub bytes_from-append :
    (mem : ℕ → ℕ) (i n m : ℕ)
    → bytes_from mem i (n + m) ≡ bytes_from mem i n ++ bytes_from mem (i + n) m
unfolding bytes_from
bytes_from-append mem i zero m =
    let s : i + 0 ≡ i = omega arith in let z : 0 + m ≡ m = omega arith in rw (s, z)
bytes_from-append mem i (suc n) m =
    let place : i + suc n ≡ i + 1 + n = omega arith in
    let s : suc n + m ≡ suc (n + m) = omega arith in
    rw (s, bytes_from-append mem (i + 1) n m, place)

take-bytes_from :
    (mem : ℕ → ℕ) (i n k : ℕ) → k ≤ n → take k (bytes_from mem i n) ≡ bytes_from mem i k
unfolding bytes_from
take-bytes_from mem i n zero h = refl
take-bytes_from mem i zero (suc k) h = absurd (omega arith)
take-bytes_from mem i (suc n) (suc k) h = rw (take-bytes_from mem (i + 1) n k (omega arith))

drop-bytes_from :
    (mem : ℕ → ℕ) (i n k : ℕ) → drop k (bytes_from mem i n) ≡ bytes_from mem (i + k) (n - k)
unfolding bytes_from
drop-bytes_from mem i n zero =
    let s : i + 0 ≡ i = omega arith in let z : n - 0 ≡ n = omega arith in rw (s, z)
drop-bytes_from mem i zero (suc k) = let z : 0 - suc k ≡ 0 = omega arith in rw z
drop-bytes_from mem i (suc n) (suc k) =
    let s : i + suc k ≡ i + 1 + k = omega arith in
    let z : suc n - suc k ≡ n - k = omega arith in rw (s, z) (drop-bytes_from mem (i + 1) n k)

-- What the file holds.
abbrev pub contents : MemFile → List ℕ
contents file = bytes_from file.data_at 0 file.size

-- What `realloc` promises: the bytes of the old block are in the new one.
abbrev pub Keeps : Option (ℕ → ℕ) → MemFile → Type 0
Keeps none file = Unit
Keeps (some mem) file = (i : ℕ) → i < file.max_size → mem i ≡ file.data_at i

-- What is so after `buf` was written at the position of `f`, where `g` is the result.
abbrev pub Stored : List ℕ → OpenFile → OpenFile → Type 0
Stored buf f g =
    (contents g.file
      ≡ take f.cur_pos (contents f.file)
        ++ (buf ++ drop (f.cur_pos + length buf) (contents f.file)))
    × ((read (pos (length buf)) (seek (pos f.cur_pos) seek_set (file_node g)).1
          ≡ some (pos (length buf), buf, file_node g))
        × IsOpen g)

contents-copy_in :
    (mem : ℕ → ℕ) (i n : ℕ) (bs : List ℕ)
    → i ≤ n
    → bytes_from (copy_in mem i bs) 0 (if ltb n (i + length bs) then i + length bs else n)
      ≡ take i (bytes_from mem 0 n) ++ (bs ++ drop (i + length bs) (bytes_from mem 0 n))
contents-copy_in mem i n bs h =
    let k = length bs in
    let new = copy_in mem i bs in
    let sum : (if ltb n (i + k) then i + k else n) ≡ i + (k + (n - (i + k))) = ground arith in
    let at_i : 0 + i ≡ i = omega arith in
    let at_end : 0 + (i + k) ≡ i + k = omega arith in
    let before = bytes_from-ext new mem 0 i (λ j le lt. copy_in-before mem i bs j (omega arith)) in
    let after =
      bytes_from-ext new mem (i + k) (n - (i + k))
        (λ j le lt. copy_in-after mem i bs j (omega arith)) in
    rw (
      sum,
      bytes_from-append new 0 i (k + (n - (i + k))),
      at_i,
      bytes_from-append new i k (n - (i + k)),
      bytes_from-copy_in mem i bs,
      before,
      after,
      take-bytes_from mem 0 n i h,
      drop-bytes_from mem 0 n (i + k),
      at_end,
    )

write_at-Stored :
    (buf : List ℕ) (f : OpenFile)
    → IsOpen f
    → f.cur_pos + length buf ≤ f.file.max_size
    → (g : OpenFile) × (write_at buf f ≡ (pos (length buf), file_node g)) × Stored buf f g
unfolding write_at read read_file seek seek_to
write_at-Stored buf f (hm, hp) room =
    let k = length buf in
    let end_pos : ℕ = f.cur_pos + k in
    let size = if ltb f.file.size end_pos then end_pos else f.file.size in
    let mem = copy_in f.file.data_at f.cur_pos buf in
    let g : OpenFile = record {
      file = record f.file { data_at = mem; size = size };
      cur_pos = end_pos;
    } in
    let inside : ltb size f.cur_pos ≡ false = ground arith in
    let enough : ltb (size - f.cur_pos) k ≡ false = ground arith in
    let back = bytes_from-copy_in f.file.data_at f.cur_pos buf in
    (
      g,
      refl,
      (
        contents-copy_in f.file.data_at f.cur_pos f.file.size buf hp,
        (rw (inside, enough, back) refl, (ground arith, ground arith)),
      ),
    )

-- `write` in a file whose position is not past its end: either `realloc` fails where it is needed,
-- and nothing changes, or all bytes are written. Then the file holds them in place of what was there,
-- all else as before, and seeking back and reading gives them again. What `realloc` returns is
-- assumed to keep the old bytes.
pub write-Stored :
    (buf : List ℕ) (grown : Option (ℕ → ℕ)) (f : OpenFile)
    → IsOpen f
    → Keeps grown f.file
    → (((f.file.max_size < f.cur_pos + length buf)
          × ((grown ≡ none) × (write buf grown (file_node f) ≡ (failed, file_node f))))
        ⊎ ((g : OpenFile) × (write buf grown (file_node f) ≡ (pos (length buf), file_node g))
            × Stored buf f g))
unfolding write new_max_size
write-Stored buf none f v keeps = elim (Bool-cases (ltb f.file.max_size (f.cur_pos + length buf))) [
  | inr fits ↦ rw fits (inr (write_at-Stored buf f v (ground arith)))
  | inl big ↦ rw big (inl (ground arith, (refl, refl)))
]
write-Stored buf (some mem) f (hm, hp) keeps =
    let total_sz : ℕ = f.cur_pos + length buf in
    elim (Bool-cases (ltb f.file.max_size total_sz)) [
      | inr fits ↦ rw fits (inr (write_at-Stored buf f (hm, hp) (ground arith)))
      | inl big ↦
          let larger = record f.file {
            data_at = mem;
            max_size = new_max_size total_sz f.file.max_size;
          } in
          let room : total_sz ≤ new_max_size total_sz f.file.max_size = ground arith in
          let old =
            bytes_from-ext mem f.file.data_at 0 f.file.size (λ i le lt. keeps i (omega arith)) in
          let stored = write_at-Stored buf (record f { file = larger }) (ground arith, hp) room in
          rw big (inr (rw old at stored))
    ]
