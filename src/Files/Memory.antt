-- ===== src/Files/Memory.antt =====
-- A file of the memory file system, src/fsmem.c, read through the layers of src/fs.c and
-- src/libc/file.c.
use boss.Prelude.{
  ℕ, zero, suc, ◌+◌, ◌-◌, ◌≤◌, ◌≡◌, refl, ◌∙◌, ap, false, Option, none, some, List, [], ◌∷◌, ltb, ℤ,
  pos, negsuc, arith,
}
use boss.Fs.{OpenNode, FsOperations, Vfs, fs_read}
use boss.Files.Lines.{IsStream}
use boss.Memfile.{
  OpenFile, Node, file_node, dir_node, seek_set, seek_cur, seek_end, Whence, bytes_from, fsize,
  tell, seek, read_file, read,
}

abbrev node_file : Node → OpenFile → OpenFile
node_file (file_node f) w = f
node_file dir_node w = w

abbrev whence_of : ℕ → Whence
whence_of zero = seek_set
whence_of (suc zero) = seek_cur
whence_of (suc (suc n)) = seek_end

-- The result of a read; the crash is taken for a failure here, and never comes in the states below.
abbrev as_result : Option (ℤ × List ℕ × Node) → OpenFile → (ℤ × List ℕ) × OpenFile
as_result none w = ((negsuc 0, []), w)
as_result (some r) w = ((r.0, r.1), node_file r.2 w)

-- The operations on one file that is open.
abbrev pub memory_file : ℕ → FsOperations OpenFile
memory_file fs = record {
  open_node = λ path flags w. (none, w);
  close_node = λ node w. w;
  fsize = λ node w. fsize (file_node w);
  seek = λ node offs whence w.
      let r = seek offs (whence_of whence) (file_node w) in (r.0, node_file r.1 w);
  tell = λ node w. tell (file_node w);
  read = λ node sz w. as_result (read sz (file_node w)) w;
  write = λ node buf sz w. (negsuc 0, w);
  rewinddir = λ node w. (negsuc 0, w);
  readdir = λ node w. (none, w);
  rename = λ node name w. (negsuc 0, w);
  remove = λ node w. (negsuc 0, w);
}

-- The position is inside the file, and what is behind it.
abbrev pub IsInside : Vfs OpenFile → Type 0
IsInside v = v.world.cur_pos ≤ v.world.file.size

abbrev pub left_of : Vfs OpenFile → List ℕ
left_of v = bytes_from v.world.file.data_at v.world.cur_pos (v.world.file.size - v.world.cur_pos)

read_one :
    (f : OpenFile) (n : ℕ)
    → f.file.size - f.cur_pos ≡ suc n
    → read_file 1 f
      ≡ some
          (pos 1, f.file.data_at f.cur_pos ∷ [], file_node (record f { cur_pos = f.cur_pos + 1 }))
unfolding read_file bytes_from
read_one f n e =
    let inside : ltb f.file.size f.cur_pos ≡ false = ground (arith, e) in
    let enough : ltb (f.file.size - f.cur_pos) 1 ≡ false = ground (arith, e) in
    rw (inside, enough) refl

read_none :
    (f : OpenFile)
    → f.cur_pos ≤ f.file.size
    → f.file.size - f.cur_pos ≡ 0
    → read_file 1 f ≡ some (pos 0, [], file_node (record f { cur_pos = f.cur_pos + 0 }))
unfolding read_file bytes_from
read_none f p e =
    let inside : ltb f.file.size f.cur_pos ≡ false = ground (arith, p) in rw (inside, e) refl

left_suc :
    (mem : ℕ → ℕ) (i n c : ℕ) (rest : List ℕ)
    → bytes_from mem i n ≡ c ∷ rest
    → (m : ℕ) × (n ≡ suc m) × (mem i ≡ c) × (bytes_from mem (i + 1) m ≡ rest)
unfolding bytes_from
left_suc mem i zero c rest e = absurd cc
left_suc mem i (suc m) c rest e = (m, refl, cc, cc)

left_zero : (mem : ℕ → ℕ) (i n : ℕ) → bytes_from mem i n ≡ [] → n ≡ 0
unfolding bytes_from
left_zero mem i zero e = refl
left_zero mem i (suc m) e = absurd cc

-- The bytes of such a file can be read one after the other to its end.
pub memory_file-IsStream :
    (node : OpenNode) → node.is_dir ≡ false → IsStream memory_file node IsInside left_of
unfolding fs_read read
memory_file-IsStream node is_file = record {
  read_byte = λ v c rest p e.
      let f = v.world in
      let (m, len, first, others) =
        left_suc f.file.data_at f.cur_pos (f.file.size - f.cur_pos) c rest e in
      let g = record f { cur_pos = f.cur_pos + 1 } in
      let less : f.file.size - (f.cur_pos + 1) ≡ m = omega (arith, len) in
      (
        record v { world = g },
        rw (is_file, read_one f m len, first) refl,
        omega (arith, len),
        ap (bytes_from f.file.data_at (f.cur_pos + 1)) less ∙ others,
      );
  read_end = λ v p e.
      let f = v.world in
      let len = left_zero f.file.data_at f.cur_pos (f.file.size - f.cur_pos) e in
      let stay : f.cur_pos + 0 ≡ f.cur_pos = omega arith in
      (
        record v { world = record f { cur_pos = f.cur_pos + 0 } },
        rw (is_file, read_none f p len) refl,
        omega (arith, p),
        ap (λ i. bytes_from f.file.data_at i (f.file.size - i)) stay ∙ e,
      );
}
