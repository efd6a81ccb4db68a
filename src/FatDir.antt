-- ===== src/FatDir.antt =====
-- Directories of src/fsfat.c: the names of entries, the loading of a directory, and the walk along a
-- path. A slot is the 32 bytes of an entry, and releasing memory is left out.
pub mod ShortName
pub mod Loading
pub mod Walking
mod Tests
use boss.Prelude.{
  ℕ, zero, suc, ◌+◌, ◌-◌, ◌*◌, ◌/◌, ◌%◌, ◌^◌, Bool, true, false, Option, none, some, List, [], ◌∷◌,
  ◌++◌, ltb, ◌==◌, ◌&&◌, ◌||◌, not, if◌then◌else◌, length, get_or, get_elem?, ℤ, pos,
}
use boss.Text.{strcasecmp}
use boss.Config.{strip_end, is_zero}
use boss.Paths.{fs_path_next, fs_path_skipsep}
use boss.Memfile.{bytes_from}
use boss.Fat.{
  FatFs, FatType, fat12, fat16, fat32, exfat, u16_at, u32_at, next_cluster, read_cluster,
}

abbrev pub Slot : Type 0
Slot = ℕ → ℕ

abbrev pub attr : Slot → ℕ
attr s = s 11

-- ATTR_DIR.
abbrev pub is_dir : Slot → Bool
is_dir s = attr s / 16 % 2 == 1

-- A C string: the bytes before the first zero.
pub until_nul : List ℕ → List ℕ
until_nul [] = []
until_nul (c ∷ s) = let rest = until_nul s in if c == 0 then [] else c ∷ rest

pub clean_trailws : List ℕ → List ℕ
clean_trailws s = strip_end s

-- A character of a long-name slot: `part1`, `part2` and `part3`, one behind the other.
pub lfn_unit : Slot → ℕ → ℕ
lfn_unit s k =
    if ltb k 5
    then u16_at s (1 + 2 * k)
    else if ltb k 11
    then u16_at s (14 + 2 * (k - 5))
    else u16_at s (28 + 2 * (k - 11))

-- The low bytes of its characters from `k` on, before the first zero.
pub lfn_part : Slot → ℕ → ℕ → List ℕ
lfn_part s zero k = []
lfn_part s (suc n) k =
    let rest = lfn_part s n (k + 1) in if lfn_unit s k == 0 then [] else (lfn_unit s k % 256) ∷ rest

-- Whether the slot before `i` is one of a long name, and not before the slot `p`.
pub has_lfn : (ℕ → Slot) → ℕ → ℕ → Bool
has_lfn slots zero p = false
has_lfn slots (suc j) p = ltb p (suc j) && (attr (slots j) == 15)

-- The loop over those slots, backwards from the one before `i`.
pub lfn_name : (ℕ → Slot) → ℕ → ℕ → List ℕ
lfn_name slots zero p = []
lfn_name slots (suc j) p =
    let part = lfn_part (slots j) 13 0 in
    let last = ltb (length part) 13 || (slots j 0 / 16 == 4) in
    let rest = lfn_name slots j p in
    if has_lfn slots (suc j) p then part ++ (if last then [] else rest) else []

-- A name of 8 and 3 bytes.
pub short_name : Slot → List ℕ
short_name s =
    let base = clean_trailws (until_nul (bytes_from s 0 8)) in
    let ext = clean_trailws (until_nul (bytes_from s 8 3)) in
    if length base == 0 then [] else if s 8 == 0 || s 8 == 32 then base else base ++ (b'.' ∷ ext)

-- `dent_filename` for the slot `i`, where `p` is the one behind `prev`: what it has written, as long
-- as the length it returns.
pub dent_filename : (ℕ → Slot) → ℕ → ℕ → List ℕ
dent_filename slots i p = if has_lfn slots i p then lfn_name slots i p else short_name (slots i)

-- `struct fs_dirent`, with `data` as the number of the slot.
pub record DirEnt : Type 0 where
  pub name : List ℕ
  pub slot : ℕ
  pub dir_type : Bool
  pub fsize : ℕ

-- The loop of `parse_dir_entries` with `n` slots to go from `i` on.
pub parse_from : (ℕ → Slot) → ℕ → ℕ → ℕ → List DirEnt
parse_from slots zero i p = []
parse_from slots (suc n) i p =
    let s = slots i in
    let text = dent_filename slots i p in
    let rest = parse_from slots n (i + 1) (if attr s == 15 then p else i + 1) in
    let skipped = s 0 == 229 || attr s == 8 || attr s == 15 in
    let entry : DirEnt = record {
      name = until_nul text;
      slot = i;
      dir_type = is_dir s;
      fsize = u32_at s 28;
    } in
    if s 0 == 0 then [] else if skipped || length text == 0 then rest else entry ∷ rest

pub record FatDir : Type 0 where
  pub slots : ℕ → Slot
  pub max_nent : ℕ
  pub fsent : List DirEnt
  pub cur_ent : ℕ

pub parse_dir_entries : (ℕ → Slot) → ℕ → FatDir
parse_dir_entries slots max_nent = record {
  slots = slots;
  max_nent = max_nent;
  fsent = parse_from slots max_nent 0 0;
  cur_ent = 0;
}

-- The cluster of an entry, as `load_dir` takes it.
pub dir_cluster : FatFs → Slot → ℕ
dir_cluster fs s = elim fs.type [
  | fat12 ↦ u16_at s 26
  | fat16 ↦ u16_at s 26
  | fat32 ↦ u16_at s 26 + u16_at s 20 * 2 ^ 16
  | exfat ↦ u16_at s 26 + u16_at s 20 * 2 ^ 16
]

-- The loop of `load_dir`: the clusters that it reads. The outer `none` stands for a chain that is
-- longer than `fuel`, the inner one for a cluster that cannot be read.
pub load_clusters : ℕ → (ℕ → ℕ → Option (ℕ → ℕ)) → FatFs → ℕ → Option (Option (List (ℕ → ℕ)))
load_clusters zero disk fs addr = none
load_clusters (suc fuel) disk fs addr = elim (read_cluster disk fs addr) [
  | none ↦ some none
  | some block ↦ elim (next_cluster fs addr) [
    | none ↦ some (some (block ∷ []))
    | some c ↦ elim (load_clusters fuel disk fs c) [
      | none ↦ none
      | some none ↦ some none
      | some (some blocks) ↦ some (some (block ∷ blocks))
    ]
  ]
]

-- The slots in clusters of `c` bytes.
pub slots_of : ℕ → List (ℕ → ℕ) → ℕ → Slot
slots_of c blocks i j = get_or blocks ((32 * i + j) / c) (λ k. 0) ((32 * i + j) % c)

pub load_dir : ℕ → (ℕ → ℕ → Option (ℕ → ℕ)) → FatFs → Slot → Option (Option FatDir)
load_dir fuel disk fs s =
    if not (is_dir s) then some none else elim (load_clusters fuel disk fs (dir_cluster fs s)) [
      | none ↦ none
      | some none ↦ some none
      | some (some blocks) ↦
          let c : ℕ = fs.cluster_size * 512 in
          some (some (parse_dir_entries (slots_of c blocks) (length blocks * c / 32)))
    ]

pub find_entry : List DirEnt → List ℕ → Option DirEnt
find_entry [] name = none
find_entry (e ∷ es) name =
    let rest = find_entry es name in if is_zero (strcasecmp e.name name) then some e else rest

pub rewinddir : FatDir → FatDir
rewinddir d = record d { cur_ent = 0 }

pub readdir : FatDir → Option DirEnt × FatDir
readdir d = elim (get_elem? d.fsent d.cur_ent) [
  | none ↦ (none, d)
  | some e ↦ (some e, record d { cur_ent = d.cur_ent + 1 })
]

-- What the walk of `open` ends with.
pub data Walked : Type 0 where
  enotdir : Walked
  enoent : Walked
  no_cluster : Walked
  endless : Walked
  at_dir : FatDir → Walked
  at_file : Slot → Walked

-- The directory that an entry leads to: `some none` for a file, and for a directory that cannot be
-- read; cluster 0 is the root directory's.
pub enter : (Slot → Option (Option FatDir)) → FatDir → Slot → Option (Option FatDir)
enter load root s =
    if u16_at s 26 == 0 && u16_at s 20 == 0
    then some (some root)
    else if is_dir s
    then load s
    else some none

-- The loop of `open`; a round takes at least a byte off the path. `last` is the slot of the last entry.
pub walk : ℕ → (Slot → Option (Option FatDir)) → FatDir → Option FatDir → Slot → List ℕ → Walked
walk zero load root dir last path = endless
walk (suc fuel) load root none last [] = at_file last
walk (suc fuel) load root (some d) last [] = at_dir (record d { cur_ent = 0 })
walk (suc fuel) load root none last (c ∷ path) = enotdir
walk (suc fuel) load root (some d) last (c ∷ path) =
    let (name, rest) = fs_path_next (c ∷ path) 195 in
    elim (length name == 1 && get_or name 0 0 == b'.') [
      | true ↦ walk fuel load root (some d) last rest
      | false ↦ elim (find_entry d.fsent name) [
        | none ↦ enoent
        | some e ↦
            let s = d.slots e.slot in
            elim (not (is_dir s) && (u16_at s 26 == 0 && u16_at s 20 == 0)) [
              | true ↦ no_cluster
              | false ↦ elim (enter load root s) [
                | none ↦ endless
                | some dir ↦ walk fuel load root dir s rest
              ]
            ]
      ]
    ]

-- `open` in a volume with the root directory `root`, from the directory `cwd` for a relative path.
pub open_path : (Slot → Option (Option FatDir)) → FatDir → FatDir → List ℕ → Walked
open_path load root cwd [] = walk 1 load root (some cwd) (λ i. 0) []
open_path load root cwd (c ∷ path) =
    let start = if c == b'/' then root else cwd in
    let rest = if c == b'/' then fs_path_skipsep (c ∷ path) else c ∷ path in
    walk (length rest + 1) load root (some start) (λ i. 0) rest
