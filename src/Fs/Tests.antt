-- ===== src/Fs/Tests.antt =====
-- Runs of src/fs.c over one file system, in which each path is that of a directory.
use boss.Prelude.{
  ℕ, ◌+◌, ◌-◌, ◌-ℤ◌, ◌≡◌, refl, true, Option, none, some, List, [], ◌∷◌, pos, negsuc, arith,
}
use boss.Text.{strcmp, diff_by}
use boss.Fs.{
  OpenNode, FsOperations, Vfs, join_path, fs_of, fs_open, fs_close, fs_chdir, create_first,
  fs_mount,
}
use boss.Fs.Chdir.{fs_chdir_back}
use boss.Fs.Mount.{fs_mount-fs_chdir}

abbrev a_dir : OpenNode
a_dir = record { addr = 7; fs = 1; is_dir = true; data_ptr = 8 }

abbrev dirs_only : ℕ → FsOperations ℕ
dirs_only fs = record {
  open_node = λ path flags w. (some a_dir, w + 1);
  close_node = λ node w. w - 1;
  fsize = λ node w. negsuc 0;
  seek = λ node offs whence w. (negsuc 0, w);
  tell = λ node w. negsuc 0;
  read = λ node sz w. ((negsuc 0, []), w);
  write = λ node buf sz w. (negsuc 0, w);
  rewinddir = λ node w. (pos 0, w);
  readdir = λ node w. (none, w);
  rename = λ node name w. (negsuc 0, w);
  remove = λ node w. (negsuc 0, w);
}

abbrev unmounted : Vfs ℕ
unmounted = record {
  rootfs = none;
  cwdnode = none;
  cwdpath = [];
  mnts = λ n. 0;
  mtab = record { mnt_list = []; mnt_tail = 0; mnt_count = 0 };
  world = 0;
}

abbrev at_root : Vfs ℕ
at_root = record unmounted { rootfs = some 1; cwdnode = some a_dir; cwdpath = b'/' ∷ []; world = 1 }

abbrev dos : List ℕ
dos = b'd' ∷ b'o' ∷ b's' ∷ []

abbrev in_dos : Vfs ℕ
in_dos = record at_root { cwdpath = b'/' ∷ dos; world = 1 }

fs_chdir_back_example :
    (v1 v2 : Vfs ℕ) × (fs_chdir dirs_only dos at_root ≡ some (pos 0, v1))
    × (v1.cwdpath ≡ join_path (b'/' ∷ []) dos)
    × (v1.cwdnode ≡ some a_dir)
    × (fs_chdir dirs_only (b'.' ∷ b'.' ∷ []) v1 ≡ some (pos 0, v2))
    × (v2.cwdpath ≡ b'/' ∷ [])
    × (v2.cwdnode ≡ some a_dir)
unfolding strcmp diff_by ◌-ℤ◌ fs_open fs_of fs_close
fs_chdir_back_example =
    fs_chdir_back dirs_only b'd' (b'o' ∷ b's' ∷ []) at_root a_dir a_dir 2 2 refl
      (refl, (refl, (refl, tt))) refl refl (omega arith) refl refl refl refl

-- The first of the two file systems is not for the device.
abbrev createfs : List (ℕ → ℕ → ℕ → ℕ → Option ℕ × ℕ)
createfs = (λ dev start size w. (none, w)) ∷ (λ dev start size w. (some 1, w + 2)) ∷ []

fs_mount-fs_chdir_example :
    (v' : Vfs ℕ) × (fs_mount dirs_only createfs (some 60) 0 63 2000 none unmounted
      ≡ some (some 1, v'))
    × (v'.rootfs ≡ some 1)
    × (v'.cwdpath ≡ b'/' ∷ [])
    × (v'.cwdnode ≡ some a_dir)
    × ((others : List (ℕ → ℕ → ℕ → ℕ → Option ℕ × ℕ)) (mem' : Option ℕ) (dev' start' size' : ℕ)
        → fs_mount dirs_only others mem' dev' start' size' none v' ≡ some (none, v'))
unfolding create_first
fs_mount-fs_chdir_example =
    fs_mount-fs_chdir dirs_only createfs (some 60) 0 63 2000 1 unmounted a_dir 2 3 refl refl refl
      refl (omega arith)
