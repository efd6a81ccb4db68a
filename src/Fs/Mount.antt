-- ===== src/Fs/Mount.antt =====
-- Mounting the root with `fs_mount` of src/fs.c.
use boss.Prelude.{
  ℕ, ◌+◌, ◌-ℤ◌, ◌≤◌, ◌≡◌, refl, ◌∙◌, ap, true, Option, none, some, List, [], ◌∷◌, length, pos,
  arith,
}
use boss.Text.{strcmp, diff_by}
use boss.Fs.{
  OpenNode, FsOperations, Vfs, join_path, fs_of, fs_open, fs_close, fs_chdir, create_first,
  mount_at, fs_mount,
}
use boss.Fs.Chdir.{entered, chdir_down, close_kept}

module _ {W : Type 0} (fsop : ℕ → FsOperations W) where
  open_root :
      (v : Vfs W) (fs : ℕ) (node : OpenNode) (w : W)
      → v.rootfs ≡ some fs
      → (fsop fs).open_node (b'/' ∷ []) 0 v.world ≡ (some node, w)
      → fs_open fsop (b'/' ∷ []) 0 v ≡ some (some node, record v { world = w })
  unfolding fs_open fs_of
  open_root v fs node w root found =
      ap
        (λ o. elim o as (λ o. Option (Option OpenNode × Vfs W)) [
          | none ↦ none
          | some fs ↦ some (
            ((fsop fs).open_node (b'/' ∷ []) 0 v.world).0,
            record v { world = ((fsop fs).open_node (b'/' ∷ []) 0 v.world).1 },
          )
        ])
        root
      ∙ ap (λ r. some (r.0, record v { world = r.1 })) found

  close_root : (o : Option OpenNode) (v : Vfs W) → (fs_close fsop o v).1.rootfs ≡ v.rootfs
  unfolding fs_close
  close_root none v = refl
  close_root (some node) v = refl

  chdir_root :
      (v : Vfs W) (fs : ℕ) (node : OpenNode) (w : W)
      → v.rootfs ≡ some fs
      → (fsop fs).open_node (b'/' ∷ []) 0 v.world ≡ (some node, w)
      → node.is_dir ≡ true
      → length v.cwdpath + 1 ≤ 1024
      → fs_chdir fsop (b'/' ∷ []) v ≡ some (pos 0, entered fsop (b'/' ∷ []) node w v)
  unfolding strcmp diff_by ◌-ℤ◌ join_path
  chdir_root v fs node w root found dir room =
      chdir_down fsop b'/' [] v node w refl refl (open_root v fs node w root found) dir
        (room, omega arith)

  again :
      (createfs : List (ℕ → ℕ → ℕ → W → Option ℕ × W)) (mem : Option ℕ) (dev start size fs : ℕ)
      (v : Vfs W)
      → v.rootfs ≡ some fs
      → fs_mount fsop createfs mem dev start size none v ≡ some (none, v)
  unfolding fs_mount
  again createfs mem dev start size fs v root =
      ap
        (λ o. elim o as (λ o. Option (Option ℕ × Vfs W)) [
          | none ↦ mount_at fsop mem none (create_first fsop createfs dev start size v.world) v
          | some fs ↦ some (none, v)
        ])
        root

  -- Mounting a root where there is none, on a file system whose root directory can be opened, makes the
  -- first file system that can be created the root, and its root directory the current one. In the
  -- state that this leaves, mounting a root is refused and changes nothing, whichever device, sectors
  -- and kinds of file system it is asked for.
  pub fs_mount-fs_chdir :
      (createfs : List (ℕ → ℕ → ℕ → W → Option ℕ × W)) (mem : Option ℕ) (dev start size fs : ℕ)
      (v : Vfs W) (node : OpenNode) (w w' : W)
      → v.rootfs ≡ none
      → create_first fsop createfs dev start size v.world ≡ (some fs, w)
      → (fsop fs).open_node (b'/' ∷ []) 0 w ≡ (some node, w')
      → node.is_dir ≡ true
      → length v.cwdpath + 1 ≤ 1024
      → (v' : Vfs W) × (fs_mount fsop createfs mem dev start size none v ≡ some (some fs, v'))
        × (v'.rootfs ≡ some fs)
        × (v'.cwdpath ≡ b'/' ∷ [])
        × (v'.cwdnode ≡ some node)
        × ((others : List (ℕ → ℕ → ℕ → W → Option ℕ × W)) (mem' : Option ℕ) (dev' start' size' : ℕ)
            → fs_mount fsop others mem' dev' start' size' none v' ≡ some (none, v'))
  unfolding fs_mount mount_at
  fs_mount-fs_chdir createfs mem dev start size fs v node w w' bare made found dir room =
      let v1 : Vfs W = record v { rootfs = some fs; world = w } in
      let v' : Vfs W = entered fsop (b'/' ∷ []) node w' v1 in
      let root : v'.rootfs ≡ some fs =
        close_root v1.cwdnode (record v1 { world = w'; cwdpath = b'/' ∷ [] }) in
      let path : v'.cwdpath ≡ b'/' ∷ [] =
        close_kept fsop v1.cwdnode (record v1 { world = w'; cwdpath = b'/' ∷ [] }) in
      let moved = chdir_root v1 fs node w' refl found dir room in
      let first : (u : Vfs W)
          → u.rootfs ≡ none
          → fs_mount fsop createfs mem dev start size none u
            ≡ mount_at fsop mem none (create_first fsop createfs dev start size u.world) u =
        λ u e.
          ap
            (λ o. elim o as (λ o. Option (Option ℕ × Vfs W)) [
              | none ↦ mount_at fsop mem none (create_first fsop createfs dev start size u.world) u
              | some fs ↦ some (none, u)
            ])
            e in
      (
        v',
        first v bare
            ∙ ap (λ r. mount_at fsop mem none r v) made
            ∙ ap
                (λ r. elim r as (λ r. Option (Option ℕ × Vfs W)) [
                  | none ↦ none
                  | some x ↦ some (some fs, x.1)
                ])
                moved,
        root,
        path,
        refl,
        λ others mem' dev' start' size'. again others mem' dev' start' size' fs v' root,
      )
