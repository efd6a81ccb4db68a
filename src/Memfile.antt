-- ===== src/Memfile.antt =====
-- Files of the memory file system, src/fsmem.c, behind the tests of src/fs.c on the kind of node. The
-- result -1 is a number, and `none` stands for a copy of a negative count of bytes.
-- The buffer of `write` is a list, whose length is the count. Null nodes and buffers, for which the
-- calls return -1, and the overflow of `int` are not modelled.
pub mod RoundTrip
mod Tests
use boss.Prelude.{
  ℕ, zero, suc, ◌+◌, ◌-◌, ◌*◌, Bool, true, false, Option, none, some, List, [], ◌∷◌, length, ltb,
  ◌==◌, if◌then◌else◌, ℤ, pos, negsuc, ◌+ℤ◌,
}

-- `struct memfs_file`: the bytes at `data`, of which the first `size` are the file's.
pub record MemFile : Type 0 where
  pub data_at : ℕ → ℕ
  pub size : ℕ
  pub max_size : ℕ

-- `struct ofile`, with the file that it points to.
pub record OpenFile : Type 0 where
  pub file : MemFile
  pub cur_pos : ℕ

-- A node of either kind; only files have the operations below.
pub data Node : Type 0 where
  file_node : OpenFile → Node
  dir_node : Node

pub data Whence : Type 0 where
  seek_set : Whence
  seek_cur : Whence
  seek_end : Whence
  other_whence : Whence

-- The value -1 of a failed call.
abbrev pub failed : ℤ
failed = negsuc 0

abbrev clamp : ℤ → ℕ
clamp (pos n) = n
clamp (negsuc n) = 0

pub fsize : Node → ℤ
fsize dir_node = failed
fsize (file_node f) = pos f.file.size

-- `new_pos` of `seek`; `none` is the default case.
pub seek_to : ℤ → Whence → OpenFile → Option ℤ
seek_to offs seek_set f = some offs
seek_to offs seek_cur f = some (pos f.cur_pos +ℤ offs)
seek_to offs seek_end f = some (pos f.file.size +ℤ offs)
seek_to offs other_whence f = none

pub seek : ℤ → Whence → Node → ℤ × Node
seek offs whence dir_node = (failed, dir_node)
seek offs whence (file_node f) = elim (seek_to offs whence f) [
  | none ↦ (failed, file_node f)
  | some new_pos ↦ (pos 0, file_node (record f { cur_pos = clamp new_pos }))
]

pub tell : Node → ℤ
tell dir_node = failed
tell (file_node f) = pos f.cur_pos

-- `memcpy` from and to memory.
unfoldable pub bytes_from : (ℕ → ℕ) → ℕ → ℕ → List ℕ
bytes_from mem i zero = []
bytes_from mem i (suc n) = mem i ∷ bytes_from mem (i + 1) n

pub copy_in : (ℕ → ℕ) → ℕ → List ℕ → ℕ → ℕ
copy_in mem i [] j = mem j
copy_in mem i (b ∷ bs) j = if j == i then b else copy_in mem (i + 1) bs j

-- What `read` returns, the bytes in the buffer, and the node.
unfoldable pub read_file : ℕ → OpenFile → Option (ℤ × List ℕ × Node)
read_file sz f =
    if ltb f.file.size f.cur_pos
    then none
    else let left = f.file.size - f.cur_pos in
      let sz' = if ltb left sz then left else sz in
      some (
        pos sz',
        bytes_from f.file.data_at f.cur_pos sz',
        file_node (record f { cur_pos = f.cur_pos + sz' }),
      )

unfoldable pub read : ℤ → Node → Option (ℤ × List ℕ × Node)
read sz dir_node = some (failed, [], dir_node)
read (negsuc n) (file_node f) = some (failed, [], file_node f)
read (pos sz) (file_node f) = read_file sz f

-- The size that `write` asks `realloc` for.
pub new_max_size : ℕ → ℕ → ℕ
new_max_size total_sz max_size = if ltb total_sz (max_size * 2) then max_size * 2 else total_sz

-- The rest of `write`, once the file has room.
pub write_at : List ℕ → OpenFile → ℤ × Node
write_at buf f =
    let end_pos = f.cur_pos + length buf in
    let file = record f.file {
      data_at = copy_in f.file.data_at f.cur_pos buf;
      size = if ltb f.file.size end_pos then end_pos else f.file.size;
    } in
    (pos (length buf), file_node (record { file = file; cur_pos = end_pos }))

-- `write` of all bytes of `buf`. `grown` is the outcome of `realloc`: the bytes at the new address.
pub write : List ℕ → Option (ℕ → ℕ) → Node → ℤ × Node
write buf grown dir_node = (failed, dir_node)
write buf grown (file_node f) =
    let total_sz = f.cur_pos + length buf in
    if ltb f.file.max_size total_sz
    then elim grown [
      | none ↦ (failed, file_node f)
      | some mem ↦ write_at buf (record f {
        file = record f.file { data_at = mem; max_size = new_max_size total_sz f.file.max_size };
      })
    ]
    else write_at buf f
