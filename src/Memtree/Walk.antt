-- ===== src/Memtree/Walk.antt =====
-- `open` of src/fsmem.c along a path.
use boss.Prelude.{
  ℕ, zero, suc, ◌<◌, ◌≤◌, ◌≡◌, ◌≢◌, refl, ◌∙◌, ap, Bool, true, false, Option, List, [], ◌∷◌, ◌++◌,
  length, length-append, ◌==◌, if◌then◌else◌, leb, arith,
}
use boss.Paths.{fs_path_skipsep, fs_path_next}
use boss.Paths.Names.{IsName, IsRest, fs_path_next-append, fs_path_next-last, skipsep-separators}
use boss.Memtree.{
  Memfs, no_entry, exists, WalkEnd, error, found, missing, arrive, walk_path, open_from, Visited,
  stop, go, visit, descend,
}
use boss.Memtree.Tree.{IsTree, IsLocal, lookup, find_entry-lookup, lookup_live, Leads, stay, step}

-- A name that is not empty, has no separator and fits in the buffer of `open`.
abbrev pub IsShort : List ℕ → Type 0
IsShort [] = ⊥
IsShort (c ∷ name) = IsName (c ∷ name) × (length (c ∷ name) < 121)

abbrev pub AllShort : List (List ℕ) → Type 0
AllShort [] = Unit
AllShort (name ∷ names) = IsShort name × AllShort names

-- The names with a separator between them.
abbrev pub path_of : List (List ℕ) → List ℕ
path_of [] = []
path_of (name ∷ []) = name
path_of (name ∷ other ∷ names) = name ++ (b'/' ∷ path_of (other ∷ names))

path_of-IsRest : (names : List (List ℕ)) → AllShort names → IsRest (path_of names)
path_of-IsRest [] h = tt
path_of-IsRest ([] ∷ names) h = elim h.0 [ ]
path_of-IsRest ((c ∷ name) ∷ []) h = h.0.0.0
path_of-IsRest ((c ∷ name) ∷ other ∷ names) h = h.0.0.0

-- A path begins with its first name.
first_name :
    (c : ℕ) (name : List ℕ) (names : List (List ℕ))
    → AllShort ((c ∷ name) ∷ names)
    → (path : List ℕ) × (path_of ((c ∷ name) ∷ names) ≡ c ∷ path)
      × (fs_path_next (c ∷ path) 121 ≡ (c ∷ name, path_of names))
      × (length (path_of names) ≤ length path)
first_name c name [] h = (name, refl, fs_path_next-last 121 c name h.0.0 h.0.1, omega arith)
first_name c name (other ∷ names) h =
    let behind = path_of (other ∷ names) in
    let long : leb 121 (length (c ∷ name)) ≡ false = let short = h.0.1 in ground arith in
    let next =
      fs_path_next-append 0 0 121 c name behind h.0.0 (path_of-IsRest (other ∷ names) h.1) in
    (
      name ++ (b'/' ∷ behind),
      refl,
      rw long at next,
      omega (arith, length-append name (b'/' ∷ behind)),
    )

-- What a round comes to where there is no such entry.
abbrev descend_missing : Bool → List ℕ → ℕ → List ℕ → Visited
descend_missing create [] n name = stop (if create then missing n name else error no_entry)
descend_missing create (c ∷ path) n name = stop (error no_entry)

-- Where the walk ends at a name that stands for nothing in `d`, with `behind` after it.
abbrev pub ended : Bool → ℕ → List ℕ → List (List ℕ) → WalkEnd
ended create d name [] = if create then missing d name else error no_entry
ended create d name (other ∷ behind) = error no_entry

skip_root :
    (names : List (List ℕ))
    → AllShort names
    → fs_path_skipsep (b'/' ∷ path_of names) ≡ path_of names
skip_root names h = skipsep-separators 1 (path_of names) (path_of-IsRest names h)

module _ (live : ℕ → Bool) (kids : ℕ → List ℕ) (s : Memfs) (rounds : ℕ) (ok : IsTree live kids s)
    (here : IsLocal live s) (enough : (d : ℕ) → length (kids d) < rounds) (create excl : Bool) where
  visit_step :
      (n : ℕ) (path : List ℕ)
      → live n ≡ true
      → (s.nodes n).is_dir ≡ true
      → visit rounds create n path s ≡ descend rounds create n (fs_path_next path 121) s
  unfolding visit
  visit_step n path l dir = rw (dir, visit, here.local n l, visit)

  ends :
      (rest : List ℕ) (n : ℕ) (name : List ℕ)
      → elim rest as (λ r. Visited) [
        | c ∷ path ↦ stop (error no_entry)
        | [] ↦ stop (if create then missing n name else error no_entry)
      ]
        ≡ descend_missing create rest n name
  ends [] n name = refl
  ends (c ∷ path) n name = refl

  visit_lem :
      (n : ℕ) (path name rest : List ℕ)
      → live n ≡ true
      → (s.nodes n).is_dir ≡ true
      → fs_path_next path 121 ≡ (name, rest)
      → (lookup kids s n name ≢ 0 → visit rounds create n path s ≡ go (lookup kids s n name) rest)
        × (lookup kids s n name ≡ 0
            → visit rounds create n path s ≡ descend_missing create rest n name)
  unfolding visit descend
  visit_lem n path name rest l dir cut =
      let find = find_entry-lookup live kids s rounds n name ok l dir (enough n) in
      let inside = visit_step n path l dir ∙ ap (λ p. descend rounds create n p s) cut in
      (
        λ ne.
            let some_node : (lookup kids s n name == 0) ≡ false = ground (arith, ne) in
            inside ∙ rw (find, descend, some_node, descend) refl,
        λ e.
            let no_node : (lookup kids s n name == 0) ≡ true = ground (arith, e) in
            inside ∙ rw (find, descend, no_node, descend) (ends rest n name),
      )

  -- Following names that stand for nodes ends at the last of them.
  walk_path-Leads :
      (fuel n t : ℕ) (names : List (List ℕ))
      → live n ≡ true
      → AllShort names
      → Leads kids s n names t
      → length (path_of names) ≤ fuel
      → (walk_path fuel rounds create excl n (path_of names) s ≡ arrive excl t s) × (live t ≡ true)
  unfolding walk_path
  walk_path-Leads fuel n t [] l h stay f = (refl, l)
  walk_path-Leads fuel n t ([] ∷ names) l h (step dir ne more) f = elim h.0 [ ]
  walk_path-Leads zero n t ((c ∷ name) ∷ names) l h (step dir ne more) f =
      let (path, e, cut, short) = first_name c name names h in absurd (omega (arith, ap length e))
  walk_path-Leads (suc fuel) n t ((c ∷ name) ∷ names) l h (step dir ne more) f =
      let (path, e, cut, short) = first_name c name names h in
      let one = (visit_lem n (c ∷ path) (c ∷ name) (path_of names) l dir cut).0 ne in
      let m = lookup kids s n (c ∷ name) in
      let rest =
        walk_path-Leads fuel m t names (lookup_live live kids s n (c ∷ name) ok l ne) h.1 more
          (omega (arith, short, ap length e)) in
      (rw (e, one, walk_path) rest.0, rest.1)

  last_round :
      (fuel d : ℕ) (name : List ℕ) (behind : List (List ℕ))
      → AllShort behind
      → elim (descend_missing create (path_of behind) d name) as (λ v. WalkEnd) [
        | stop end ↦ end
        | go m rest ↦ walk_path fuel rounds create excl m rest s
      ]
        ≡ ended create d name behind
  last_round fuel d name [] h = refl
  last_round fuel d name ([] ∷ behind) h = elim h.0 [ ]
  last_round fuel d name ((c ∷ word) ∷ []) h = refl
  last_round fuel d name ((c ∷ word) ∷ other ∷ behind) h = refl

  walk_nowhere :
      (fuel d : ℕ) (name : List ℕ) (behind : List (List ℕ))
      → live d ≡ true
      → (s.nodes d).is_dir ≡ true
      → AllShort (name ∷ behind)
      → lookup kids s d name ≡ 0
      → length (path_of (name ∷ behind)) ≤ fuel
      → walk_path fuel rounds create excl d (path_of (name ∷ behind)) s ≡ ended create d name behind
  unfolding walk_path
  walk_nowhere fuel d [] behind l dir h z f = elim h.0 [ ]
  walk_nowhere zero d (c ∷ name) behind l dir h z f =
      let (path, e, cut, short) = first_name c name behind h in absurd (omega (arith, ap length e))
  walk_nowhere (suc fuel) d (c ∷ name) behind l dir h z f =
      let (path, e, cut, short) = first_name c name behind h in
      let one = (visit_lem d (c ∷ path) (c ∷ name) (path_of behind) l dir cut).1 z in
      rw (e, one, walk_path) (last_round fuel d (c ∷ name) behind h.1)

  -- Following names up to one that stands for nothing.
  walk_path-missing :
      (fuel n d : ℕ) (names : List (List ℕ)) (name : List ℕ) (behind : List (List ℕ))
      → live n ≡ true
      → AllShort (names ++ name ∷ behind)
      → Leads kids s n names d
      → (s.nodes d).is_dir ≡ true
      → lookup kids s d name ≡ 0
      → length (path_of (names ++ name ∷ behind)) ≤ fuel
      → walk_path fuel rounds create excl n (path_of (names ++ name ∷ behind)) s
        ≡ ended create d name behind
  unfolding walk_path
  walk_path-missing fuel n d [] name behind l h stay dir z f =
      walk_nowhere fuel n name behind l dir h z f
  walk_path-missing fuel n d ([] ∷ names) name behind l h (step e ne more) dir z f = elim h.0 [ ]
  walk_path-missing zero n d ((c ∷ word) ∷ names) name behind l h (step e ne more) dir z f =
      let (path, cut, next, short) = first_name c word (names ++ name ∷ behind) h in
      absurd (omega (arith, ap length cut))
  walk_path-missing (suc fuel) n d ((c ∷ word) ∷ names) name behind l h (step e ne more) dir z f =
      let (path, cut, next, short) = first_name c word (names ++ name ∷ behind) h in
      let behind' = path_of (names ++ name ∷ behind) in
      let one = (visit_lem n (c ∷ path) (c ∷ word) behind' l e next).0 ne in
      let m = lookup kids s n (c ∷ word) in
      let rest =
        walk_path-missing fuel m d names name behind (lookup_live live kids s n (c ∷ word) ok l ne)
          h.1 more dir z (omega (arith, short, ap length cut)) in
      rw (cut, one, walk_path) rest

  -- In a tree in which no node's first handle has been closed or has another file system mounted on it,
  -- opening a path whose names stand for nodes, one after the other from the root, finds the node of the
  -- last one, or fails with EEXIST if it is to be new.
  pub open_from-Leads :
      (cwd : Option ℕ) (t : ℕ) (names : List (List ℕ))
      → AllShort names
      → Leads kids s s.rootdir names t
      → open_from rounds create excl cwd (b'/' ∷ path_of names) s
        ≡ (if excl then error exists else found t)
  unfolding open_from arrive
  open_from-Leads cwd t names h leads =
      let skip = skip_root names h in
      let (walked, l) =
        walk_path-Leads (suc (length (path_of names))) s.rootdir t names ok.root_live h leads
          (omega arith) in
      rw (skip, walked, here.local t l, arrive) refl

  -- In a tree in which no node's first handle has been closed or has another file system mounted on it,
  -- the walk along a path in which one name stands for nothing ends with ENOENT, unless it is the last
  -- name and a new node is asked for: then it ends at the directory that the names before it lead to,
  -- with that name.
  pub open_from-missing :
      (cwd : Option ℕ) (d : ℕ) (names : List (List ℕ)) (name : List ℕ) (behind : List (List ℕ))
      → AllShort (names ++ name ∷ behind)
      → Leads kids s s.rootdir names d
      → (s.nodes d).is_dir ≡ true
      → lookup kids s d name ≡ 0
      → open_from rounds create excl cwd (b'/' ∷ path_of (names ++ name ∷ behind)) s
        ≡ ended create d name behind
  unfolding open_from
  open_from-missing cwd d names name behind h leads dir z =
      let skip = skip_root (names ++ name ∷ behind) h in
      let whole = path_of (names ++ name ∷ behind) in
      rw skip (
        walk_path-missing (suc (length whole)) s.rootdir d names name behind ok.root_live h leads
          dir z (omega arith))
