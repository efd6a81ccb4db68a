-- ===== src/Config/Tests.antt =====
-- Lines and options of src/cfgfile.c on concrete text, and the theorems at such inputs.
use boss.Prelude.{◌≡◌, refl, true, some, [], ◌∷◌, pos, if◌then◌else◌}
use boss.Config.{CfgOpt, CfgList, has_key, cfg_getstr, new_opt, cfg_setstr, clean_line, strip_end}
use boss.Config.Lookup.{has, cfg_getstr-cfg_setstr}
use boss.Number.{skip_space}

-- width = "64", under the key "w".
abbrev width : CfgOpt
width = record { key = b'w' ∷ []; valstr = b'6' ∷ b'4' ∷ []; is_int = true; ival = pos 64 }

abbrev loaded : CfgList
loaded = record { opts = width ∷ []; count = 1 }

clean_padded : clean_line (32 ∷ 9 ∷ b'a' ∷ 32 ∷ b'b' ∷ 32 ∷ 10 ∷ []) ≡ b'a' ∷ 32 ∷ b'b' ∷ []
unfolding clean_line strip_end skip_space
clean_padded = refl

cfg_getstr-cfg_setstr_example :
    cfg_getstr (cfg_setstr true (b'h' ∷ []) (b'9' ∷ []) (some loaded)).1 (b'H' ∷ []) [] ≡ (
      if has (b'H' ∷ []) loaded.opts
      then cfg_getstr (some loaded) (b'H' ∷ []) []
      else if has_key (b'H' ∷ []) (new_opt (b'h' ∷ []) (b'9' ∷ []))
      then b'9' ∷ []
      else [])
cfg_getstr-cfg_setstr_example = cfg_getstr-cfg_setstr (b'h' ∷ []) (b'9' ∷ []) (b'H' ∷ []) [] loaded
