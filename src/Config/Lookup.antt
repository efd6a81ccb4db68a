-- ===== src/Config/Lookup.antt =====
-- Options of src/cfgfile.c, looked up after they were set or removed.
use boss.Prelude.{
  ℕ, ◌≡◌, refl, ap, Bool, true, false, inl, inr, Bool-cases, none, some, List, [], ◌∷◌, ◌++◌,
  if◌then◌else◌, arith, pos, negsuc, ◌⊎◌,
}
use boss.Config.{
  str_or, CfgOpt, CfgList, has_key, find_opt, cfg_getstr, new_opt, cfg_setstr, remove_opt,
  cfg_remove,
}

-- Whether a list has an option of the name.
abbrev pub has : List ℕ → List CfgOpt → Bool
has name [] = false
has name (opt ∷ opts) = if has_key name opt then true else has name opts

find_opt-append :
    (opts : List CfgOpt) (opt : CfgOpt) (name : List ℕ)
    → find_opt (opts ++ opt ∷ []) name
      ≡ (if has name opts then find_opt opts name else if has_key name opt then some opt else none)
unfolding find_opt
find_opt-append [] opt name = refl
find_opt-append (o ∷ opts) opt name = ground (arith, find_opt-append opts opt name)

find_opt-none :
    (opts : List CfgOpt) (name : List ℕ) → has name opts ≡ false → find_opt opts name ≡ none
unfolding find_opt
find_opt-none [] name h = refl
find_opt-none (o ∷ opts) name h = ground (arith, find_opt-none opts name)

-- A string that is set, where its allocations succeed, is found under its name, whatever the case of its letters, unless an option
-- of that name is there already, whose older value is then still found; every other name gives what
-- it gave before.
pub cfg_getstr-cfg_setstr :
    (name val other defval : List ℕ) (cfg : CfgList)
    → cfg_getstr (cfg_setstr true name val (some cfg)).1 other defval ≡ (
        if has other cfg.opts
        then cfg_getstr (some cfg) other defval
        else if has_key other (new_opt name val)
        then val
        else defval)
unfolding cfg_setstr cfg_getstr str_or new_opt
cfg_getstr-cfg_setstr name val other defval cfg =
    let found = find_opt-append cfg.opts (new_opt name val) other in
    elim (Bool-cases (has other cfg.opts)) [
      | inl e ↦ rw (found, e)
      | inr e ↦ elim (Bool-cases (has_key other (new_opt name val))) [
        | inl k ↦ rw (found, e, k)
        | inr k ↦ rw (found, e, k)
      ]
    ]

-- What `cfg_remove` leaves of the options: all but the first one of the name.
abbrev pub Removed : List ℕ → List CfgOpt → List CfgOpt → Type 0
Removed name opts left =
    (before : List CfgOpt) × (opt : CfgOpt) × (after : List CfgOpt) × (opts ≡ before ++ opt ∷ after)
    × (left ≡ before ++ after)
    × (has name before ≡ false)
    × (has_key name opt ≡ true)

remove_opt-Removed :
    (name : List ℕ) (opts : List CfgOpt)
    → ((remove_opt name opts ≡ none) × (has name opts ≡ false))
      ⊎ ((left : List CfgOpt) × (remove_opt name opts ≡ some left) × Removed name opts left)
unfolding remove_opt
remove_opt-Removed name [] = inl (refl, refl)
remove_opt-Removed name (opt ∷ opts) = elim (Bool-cases (has_key name opt)) [
  | inl e ↦ rw e (inr (opts, refl, ([], opt, opts, refl, refl, refl, e)))
  | inr e ↦ elim (remove_opt-Removed name opts) [
    | inl (gone, missing) ↦ rw (e, gone) (inl (refl, missing))
    | inr (left, eq, (before, o, after, p, q, missing, hit)) ↦
        rw (e, eq)
          (inr (
            opt ∷ left,
            refl,
            (opt ∷ before, o, after, ap (λ r. opt ∷ r) p, ap (λ r. opt ∷ r) q, rw e missing, hit),
          ))
  ]
]

-- Removing a key takes out the first option of that name and no other and returns 0. If there is
-- none, it returns -1 and the list is as before. The count of the list is as before in both cases.
pub cfg_remove-Removed :
    (name : List ℕ) (cfg : CfgList)
    → ((cfg_remove name (some cfg) ≡ (negsuc 0, some cfg)) × (has name cfg.opts ≡ false))
      ⊎ ((left : List CfgOpt) × (cfg_remove name (some cfg)
            ≡ (pos 0, some (record cfg { opts = left })))
          × Removed name cfg.opts left)
unfolding cfg_remove
cfg_remove-Removed name cfg = elim (remove_opt-Removed name cfg.opts) [
  | inl (gone, missing) ↦ rw (gone, cfg_remove) (inl (refl, missing))
  | inr (left, eq, r) ↦ rw (eq, cfg_remove) (inr (left, refl, r))
]
