-- ===== src/Config.antt =====
-- Configuration files, src/cfgfile.c: the list of options and the reading of its lines. The list's
-- `tail` is its last node, which an append goes behind. A null list is `none`.
pub mod Lookup
mod Tests
use boss.Prelude.{
  ℕ, zero, suc, ◌+◌, ◌-◌, Bool, true, false, Option, none, some, List, [], ◌∷◌, ◌++◌, ◌==◌, ◌&&◌,
  ◌||◌, not, if◌then◌else◌, length, take, drop, ℤ, pos, negsuc,
}
use boss.Text.{isspace, strcasecmp, strchr}
use boss.Number.{strtol, skip_space}

-- `struct cfgopt`; `is_int` is `type == CFGOPT_INT`.
pub record CfgOpt : Type 0 where
  pub key : List ℕ
  pub valstr : List ℕ
  pub is_int : Bool
  pub ival : ℤ

pub record CfgList : Type 0 where
  pub opts : List CfgOpt
  pub count : ℕ

abbrev pub alloc_cfglist : CfgList
alloc_cfglist = record { opts = []; count = 0 }

-- The test `strcasecmp(...) == 0`.
abbrev pub is_zero : ℤ → Bool
is_zero (pos zero) = true
is_zero (pos (suc n)) = false
is_zero (negsuc n) = false

pub has_key : List ℕ → CfgOpt → Bool
has_key name opt = is_zero (strcasecmp opt.key name)

-- The loop of the three lookups.
pub find_opt : List CfgOpt → List ℕ → Option CfgOpt
find_opt [] name = none
find_opt (opt ∷ opts) name =
    let rest = find_opt opts name in if has_key name opt then some opt else rest

pub cfg_getopt : Option CfgList → List ℕ → Option CfgOpt
cfg_getopt none name = none
cfg_getopt (some cfg) name = find_opt cfg.opts name

-- What `cfg_getstr` returns where it has found an option, or none.
pub str_or : List ℕ → Option CfgOpt → List ℕ
str_or defval none = defval
str_or defval (some opt) = opt.valstr

pub cfg_getstr : Option CfgList → List ℕ → List ℕ → List ℕ
cfg_getstr none name defval = defval
cfg_getstr (some cfg) name defval = str_or defval (find_opt cfg.opts name)

pub cfg_getint : Option CfgList → List ℕ → ℤ → ℤ
cfg_getint none name defval = defval
cfg_getint (some cfg) name defval = elim (find_opt cfg.opts name) [
  | none ↦ defval
  | some opt ↦ if opt.is_int then opt.ival else defval
]

-- The option that `cfg_setstr` fills in.
pub new_opt : List ℕ → List ℕ → CfgOpt
new_opt name val =
    let (ival, rest) = strtol val 0 in
    record { key = name; valstr = val; is_int = not (length rest == length val); ival = ival }

-- `cfg_setstr`; `room` is whether the three allocations succeed.
pub cfg_setstr : Bool → List ℕ → List ℕ → Option CfgList → ℤ × Option CfgList
cfg_setstr room name val none = (negsuc 0, none)
cfg_setstr room name val (some cfg) =
    if room
    then (pos 0, some (record { opts = cfg.opts ++ new_opt name val ∷ []; count = cfg.count + 1 }))
    else (negsuc 0, some cfg)

-- The loop of `cfg_remove`: what is left where the key is found.
pub remove_opt : List ℕ → List CfgOpt → Option (List CfgOpt)
remove_opt name [] = none
remove_opt name (opt ∷ opts) =
    let rest = remove_opt name opts in
    if has_key name opt then some opts else elim rest [ none ↦ none | some r ↦ some (opt ∷ r) ]

-- `cfg_remove`, which does not change `count`.
pub cfg_remove : List ℕ → Option CfgList → ℤ × Option CfgList
cfg_remove name none = (negsuc 0, none)
cfg_remove name (some cfg) = elim (remove_opt name cfg.opts) [
  | none ↦ (negsuc 0, some cfg)
  | some opts ↦ (pos 0, some (record cfg { opts = opts }))
]

-- The second loop of `clean_line`, behind the first byte.
unfoldable pub strip_end : List ℕ → List ℕ
strip_end [] = []
strip_end (c ∷ s) =
    let rest = strip_end s in if isspace c && (length rest == 0) then [] else c ∷ rest

pub clean_line : List ℕ → List ℕ
clean_line s = elim (skip_space s) [ [] ↦ [] | c ∷ rest ↦ c ∷ strip_end rest ]

-- One round of `load_cfglist`, on the line that `fgets` has read.
pub load_line : Bool → List ℕ → CfgList → CfgList
load_line room buf cfg =
    let line = clean_line buf in
    elim (strchr line b'=') [
      | none ↦ cfg
      | some rest ↦
          let name = clean_line (take (length line - length rest) line) in
          let val = clean_line (drop 1 rest) in
          if length name == 0 || length val == 0
          then cfg
          else elim (cfg_setstr room name val (some cfg)).1 [ none ↦ cfg | some cfg' ↦ cfg' ]
    ]

-- `load_cfglist` on the lines of a file that opens.
pub load_lines : List (List ℕ) → CfgList → CfgList
load_lines [] cfg = cfg
load_lines (line ∷ lines) cfg = load_lines lines (load_line true line cfg)

pub load_cfglist : Option (List (List ℕ)) → Bool → Option CfgList
load_cfglist none room = none
load_cfglist (some lines) room = if room then some (load_lines lines alloc_cfglist) else none
