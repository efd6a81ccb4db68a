-- ===== src/Fs/Outcome.antt =====
-- What `fs_chdir` of src/fs.c can come to.
use boss.Prelude.{
  ℕ, ◌+◌, ◌<◌, ◌≤◌, ◌≡◌, refl, sym, ◌⊎◌, Bool, true, false, Option, none, some, List, [], ◌∷◌,
  length, get_or, ◌==◌, if◌then◌else◌, ℤ, pos, negsuc,
}
use boss.Text.{strcmp}
use boss.Memtree.{says_equal}
use boss.Fs.{OpenNode, FsOperations, Vfs, up_path, join_path, fs_open}
use boss.Fs.Chdir.{Fits}

-- The current directory, the root and the mount table are as they were.
pub record IsSame {W : Type 0} (v v' : Vfs W) : Type 0 where
  pub same_path : v'.cwdpath ≡ v.cwdpath
  pub same_node : v'.cwdnode ≡ v.cwdnode
  pub same_root : v'.rootfs ≡ v.rootfs
  pub same_mtab : v'.mtab ≡ v.mtab

-- What the tests of the lengths have said.
abbrev Tested : Bool → List ℕ → List ℕ → Type 0
Tested true cwd path = (1024 < length cwd + length path) ⊎ (1024 ≤ length (join_path cwd path))
Tested false cwd path = Fits cwd path

-- The path that is given to `fs_open`, and the one of the directory that is entered.
abbrev pub asked_path : Bool → List ℕ → List ℕ → List ℕ
asked_path up cwd path = if up then up_path cwd else path

abbrev pub new_path : Bool → List ℕ → List ℕ → List ℕ
new_path up cwd asked = if up then asked else join_path cwd asked

module _ {W : Type 0} (fsop : ℕ → FsOperations W) where
  -- Nothing can be opened there, or it is no directory, or there is none above.
  abbrev pub Refused : Bool → List ℕ → Vfs W → Type 0
  Refused up asked v =
      ((up ≡ true) × (length v.cwdpath ≤ 1))
      ⊎ ((u : Vfs W) × (fs_open fsop asked 0 v ≡ some (none, u)))
      ⊎ ((u : Vfs W) × (node : OpenNode) × (fs_open fsop asked 0 v ≡ some (some node, u))
          × (node.is_dir ≡ false))

  abbrev pub Entered : Bool → List ℕ → Vfs W → Vfs W → Type 0
  Entered up asked v v' =
      (u : Vfs W) × (node : OpenNode) × (fs_open fsop asked 0 v ≡ some (some node, u))
      × (node.is_dir ≡ true)
      × (v'.cwdnode ≡ some node)
      × (v'.cwdpath ≡ new_path up v.cwdpath asked)
      × (v'.rootfs ≡ v.rootfs)
      × (up ≡ false → Fits v.cwdpath asked)

  -- What can come of entering a directory whose path is to be opened.
  abbrev pub Allowed : Bool → List ℕ → Vfs W → Option (ℤ × Vfs W) → Type 0
  Allowed up asked v none =
      ((v.rootfs ≡ none) × (get_or asked 0 0 == b'/') ≡ true)
      ⊎ ((up ≡ false)
          × ((1024 < length v.cwdpath + length asked)
              ⊎ (1024 ≤ length (join_path v.cwdpath asked))))
  Allowed up asked v (some (r, v')) =
      ((r ≡ negsuc 0) × IsSame v v' × Refused up asked v) ⊎ ((r ≡ pos 0) × Entered up asked v v')

  abbrev pub AllowedResult : List ℕ → Vfs W → Option (ℤ × Vfs W) → Type 0
  AllowedResult path v res =
      let up = says_equal (strcmp path (b'.' ∷ b'.' ∷ [])) in
      Allowed up (asked_path up v.cwdpath path) v res

  abbrev Opened : List ℕ → Vfs W → Option (Option OpenNode × Vfs W) → Type 0
  Opened path v none = (v.rootfs ≡ none) × (get_or path 0 0 == b'/') ≡ true
  Opened path v (some (o, v')) = IsSame v v'

  same : (v : Vfs W) → IsSame v v
  same v = record { same_path = refl; same_node = refl; same_root = refl; same_mtab = refl }

  of_world : (v : Vfs W) (w : W) → IsSame v (record v { world = w })
  of_world v w = record { same_path = refl; same_node = refl; same_root = refl; same_mtab = refl }

  asked :
      (path p : List ℕ) (flags : ℕ) (v : Vfs W) (root : Bool) (fs : Option ℕ)
      → (root ≡ true → fs ≡ v.rootfs)
      → (get_or p 0 0 == b'/') ≡ root
      → Opened p v (elim fs as (λ x. Option (Option OpenNode × Vfs W)) [
        | none ↦ if root then none else some (none, v)
        | some fs ↦ some (
          ((fsop fs).open_node path flags v.world).0,
          record v { world = ((fsop fs).open_node path flags v.world).1 },
        )
      ])
  asked path p flags v true none h e = (sym (h refl), e)
  asked path p flags v false none h e = same v
  asked path p flags v root (some fs) h e = of_world v _
