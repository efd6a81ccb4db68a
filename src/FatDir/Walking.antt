-- ===== src/FatDir/Walking.antt =====
-- Walking along a path of src/fsfat.c.
use boss.Prelude.{
  ℕ, zero, suc, ◌+◌, ◌<◌, ◌≡◌, ◌≢◌, inl, inr, Bool-cases, Option, Option-cases, none, some, List,
  [], ◌∷◌, length, get_or, ◌==◌, ◌&&◌, not, if◌then◌else◌, arith,
}
use boss.Paths.{fs_path_next, fs_path_skipsep}
use boss.Paths.Names.{length-fs_path_next}
use boss.Fat.{FatFs, u16_at, next_cluster, read_cluster}
use boss.FatDir.{
  Slot, FatDir, endless, find_entry, enter, walk, open_path, is_dir, load_clusters, load_dir,
  dir_cluster,
}

module _ (load : Slot → Option (Option FatDir)) (root : FatDir)
    (loads : (s : Slot) → load s ≢ none) where
  enter-ne-none : (s : Slot) → enter load root s ≢ none
  unfolding enter
  enter-ne-none s = ground (arith, loads s)

  walk-ends :
      (fuel : ℕ) (dir : Option FatDir) (last : Slot) (path : List ℕ)
      → length path < fuel
      → walk fuel load root dir last path ≢ endless
  unfolding walk
  walk-ends zero dir last path h = elim h [ ]
  walk-ends (suc fuel) none last [] h = λ e. cc
  walk-ends (suc fuel) (some d) last [] h = λ e. cc
  walk-ends (suc fuel) none last (c ∷ path) h = λ e. cc
  walk-ends (suc fuel) (some d) last (c ∷ path) h =
      let rest = (fs_path_next (c ∷ path) 195).1 in
      let name = (fs_path_next (c ∷ path) 195).0 in
      let shorter : length rest < fuel = omega (arith, length-fs_path_next c path 195) in
      elim (Bool-cases (length name == 1 && get_or name 0 0 == b'.')) [
        | inl dot ↦ rw (dot, walk) (walk-ends fuel (some d) last rest shorter)
        | inr other ↦ elim (Option-cases (find_entry d.fsent name)) [
          | inl missing ↦ rw (other, missing, walk) (λ e. cc)
          | inr (e, found) ↦
              let s = d.slots e.slot in
              elim (Bool-cases (not (is_dir s) && (u16_at s 26 == 0 && u16_at s 20 == 0))) [
                | inl bad ↦ rw (other, found, bad, walk) (λ e. cc)
                | inr good ↦ elim (Option-cases (enter load root s)) [
                  | inl never ↦ absurd (enter-ne-none s never)
                  | inr (dir, there) ↦
                      rw (other, found, good, there, walk) (walk-ends fuel dir s rest shorter)
                ]
              ]
        ]
      ]

  open_loaded-ends : (cwd : FatDir) (path : List ℕ) → open_path load root cwd path ≢ endless
  unfolding open_path
  open_loaded-ends cwd [] = walk-ends 1 (some cwd) (λ i. 0) [] (omega arith)
  open_loaded-ends cwd (c ∷ path) =
      let start = if c == b'/' then root else cwd in
      let rest = if c == b'/' then fs_path_skipsep (c ∷ path) else c ∷ path in
      walk-ends (length rest + 1) (some start) (λ i. 0) rest (omega arith)

-- A number for every cluster that is smaller for the next one, as there is on a volume whose chains
-- have no cycle.
abbrev pub Ranked : FatFs → (ℕ → ℕ) → Type 0
Ranked fs rank = (a c : ℕ) → next_cluster fs a ≡ some c → rank c < rank a

load_clusters-ends :
    (disk : ℕ → ℕ → Option (ℕ → ℕ)) (fs : FatFs) (rank : ℕ → ℕ) (fuel a : ℕ)
    → Ranked fs rank
    → rank a < fuel
    → load_clusters fuel disk fs a ≢ none
unfolding load_clusters
load_clusters-ends disk fs rank zero a down h = λ e. elim h [ ]
load_clusters-ends disk fs rank (suc fuel) a down h = elim (Option-cases (read_cluster disk fs a)) [
  | inl unread ↦ rw (unread, load_clusters) (λ e. cc)
  | inr (block, read) ↦ elim (Option-cases (next_cluster fs a)) [
    | inl last ↦ rw (read, last, load_clusters) (λ e. cc)
    | inr (c, link) ↦
        let more = load_clusters-ends disk fs rank fuel c down (omega (arith, down a c link, h)) in
        elim (Option-cases (load_clusters fuel disk fs c)) [
          | inl never ↦ absurd (more never)
          | inr (none, bad) ↦ rw (read, link, load_clusters, bad) (λ e. cc)
          | inr (some blocks, good) ↦ rw (read, link, load_clusters, good) (λ e. cc)
        ]
  ]
]

load_dir-ends :
    (disk : ℕ → ℕ → Option (ℕ → ℕ)) (fs : FatFs) (fuel : ℕ) (s : Slot)
    → load_clusters fuel disk fs (dir_cluster fs s) ≢ none
    → load_dir fuel disk fs s ≢ none
unfolding load_dir
load_dir-ends disk fs fuel s ends = elim (Bool-cases (not (is_dir s))) [
  | inl file ↦ rw file (λ e. cc)
  | inr dir ↦ rw dir (elim (Option-cases (load_clusters fuel disk fs (dir_cluster fs s))) [
    | inl never ↦ absurd (ends never)
    | inr (none, bad) ↦ rw (bad, load_dir) (λ e. cc)
    | inr (some blocks, good) ↦ rw (good, load_dir) (λ e. cc)
  ])
]

-- On a volume whose chains of clusters have no cycle, opening any path ends, from any directory and
-- whatever can be read of the disk: directories are loaded along their chains, with a round for each
-- step that a chain can have, and a round for each byte of the path is enough.
pub open_path-ends :
    (disk : ℕ → ℕ → Option (ℕ → ℕ)) (fs : FatFs) (rank : ℕ → ℕ) (fuel : ℕ) (root cwd : FatDir)
    (path : List ℕ)
    → Ranked fs rank
    → ((a : ℕ) → rank a < fuel)
    → open_path (load_dir fuel disk fs) root cwd path ≢ endless
open_path-ends disk fs rank fuel root cwd path down low =
    open_loaded-ends (load_dir fuel disk fs) root
      (λ s.
        load_dir-ends disk fs fuel s
          (load_clusters-ends disk fs rank fuel (dir_cluster fs s) down (low (dir_cluster fs s))))
      cwd path
