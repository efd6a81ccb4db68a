-- ===== src/Dynarr.antt =====
-- Resizable arrays, src/dynarr.c. The elements are values of any type, and the outcome of `realloc` is
-- an argument: the elements at the new address, or `none`.
pub mod Stack
mod Tests
use boss.Prelude.{
  ℕ, ◌+◌, ◌-◌, ◌*◌, ◌/◌, Bool, true, false, Option, none, some, leb, ◌==◌, if◌then◌else◌, update,
}

-- `struct arrdesc`, and the elements behind it.
pub record DynArr {ℓ} (A : Type ℓ) : Type ℓ where
  pub nelem : ℕ
  pub max_elem : ℕ
  pub szelem : ℕ
  pub bufsz : ℕ
  pub elems : ℕ → A

module _ {ℓ} {A : Type ℓ} where
  -- `block` is what `malloc` returns.
  pub dynarr_alloc : ℕ → ℕ → Option (ℕ → A) → Option (DynArr A)
  dynarr_alloc elem szelem none = none
  dynarr_alloc elem szelem (some block) = some (record {
    nelem = elem;
    max_elem = elem;
    szelem = szelem;
    bufsz = elem * szelem;
    elems = block;
  })

  pub dynarr_resize : ℕ → Option (ℕ → A) → DynArr A → Option (DynArr A)
  dynarr_resize elem none da = none
  dynarr_resize elem (some block) da = some (record {
    nelem = elem;
    max_elem = elem;
    szelem = da.szelem;
    bufsz = da.szelem * elem;
    elems = block;
  })

  pub dynarr_empty : DynArr A → Bool
  dynarr_empty da = da.nelem == 0

  pub dynarr_size : DynArr A → ℕ
  dynarr_size da = da.nelem

  pub dynarr_clear : Option (ℕ → A) → DynArr A → Option (DynArr A)
  dynarr_clear block da = dynarr_resize 0 block da

  -- The end of `dynarr_push`: a null item is counted and not copied.
  pub push_item : Option A → DynArr A → DynArr A
  push_item none da = record da { nelem = da.nelem + 1 }
  push_item (some item) da = record da {
    nelem = da.nelem + 1;
    elems = update da.elems da.nelem item;
  }

  pub dynarr_push : Option A → Option (ℕ → A) → DynArr A → DynArr A
  dynarr_push item block da =
      let newsz = if da.max_elem == 0 then 1 else da.max_elem * 2 in
      if leb da.max_elem da.nelem
      then elim (dynarr_resize newsz block da) [
        | none ↦ da
        | some da' ↦ push_item item (record da' { nelem = da.nelem })
      ]
      else push_item item da

  pub dynarr_pop : Option (ℕ → A) → DynArr A → DynArr A
  dynarr_pop block da =
      if da.nelem == 0
      then da
      else if leb da.nelem (da.max_elem / 3)
      then elim (dynarr_resize (da.max_elem / 2) block da) [
        | none ↦ da
        | some da' ↦ record da' { nelem = da.nelem - 1 }
      ]
      else record da { nelem = da.nelem - 1 }
