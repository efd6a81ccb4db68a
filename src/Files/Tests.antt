-- ===== src/Files/Tests.antt =====
-- A file of src/libc/file.c in the memory file system of src/fsmem.c.
use boss.Prelude.{ℕ, ◌≡◌, refl, true, false, none, some, List, [], ◌∷◌, get_or, arith}
use boss.Memfile.{OpenFile, bytes_from}
use boss.Fs.{OpenNode, Vfs}
use boss.Files.{File, no_mode, mode_of, parse_mode}
use boss.Files.Memory.{memory_file, IsInside, left_of, memory_file-IsStream}
use boss.Files.Whole.{concat, read_lines, concat-read_lines}

abbrev a_file : OpenNode
a_file = record { addr = 7; fs = 1; is_dir = false; data_ptr = 8 }

abbrev text_file : File
text_file = record { mode = no_mode; at_eof = false; has_err = false; fsn = a_file }

abbrev text : List ℕ
text = b'a' ∷ 10 ∷ b'b' ∷ b'c' ∷ b'd' ∷ []

abbrev at_start : OpenFile
at_start = record {
  file = record { data_at = λ i. get_or text i 0; size = 5; max_size = 8 };
  cur_pos = 0;
}

abbrev with_text : Vfs OpenFile
with_text = record {
  rootfs = some 1;
  cwdnode = none;
  cwdpath = [];
  mnts = λ n. 0;
  mtab = record { mnt_list = []; mnt_tail = 0; mnt_count = 0 };
  world = at_start;
}

-- Three lines, as the buffer has room for two bytes.
concat-read_lines_example :
    (read_lines memory_file 6 3 (some text_file) with_text
      ≡ (b'a' ∷ 10 ∷ []) ∷ (b'b' ∷ b'c' ∷ []) ∷ (b'd' ∷ []) ∷ [])
    × (concat (read_lines memory_file 6 3 (some text_file) with_text) ≡ text)
unfolding bytes_from
concat-read_lines_example =
    concat-read_lines memory_file text_file IsInside left_of (memory_file-IsStream a_file refl) 6 1
      with_text (omega arith) (omega arith)

-- The mode "r+b".
update_mode :
    parse_mode (b'r' ∷ b'+' ∷ b'b' ∷ []) no_mode
    ≡ some (record no_mode { reads = true; writes = true })
unfolding parse_mode mode_of
update_mode = refl
