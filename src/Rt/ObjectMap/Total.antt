-- ===== src/Rt/ObjectMap/Total.antt =====
-- `insert` of src/rt/ds/hashmap.h with all its calls of `resize` and of itself.
use verona.Prelude.{ℕ, suc, ◌≡◌, Bool, true, some}
use verona.Rt.ObjectMap.Defs.{Entry, ObjectMap}
use verona.Rt.ObjectMap.Resize.{insert}
use verona.Rt.ObjectMap.Home.{Apart}
use verona.Rt.ObjectMap.Rehash.{IsFit, Adds, Ends}

module _ (hash : ℕ → ℕ) (known : ℕ → Bool) (bits : ℕ) (apart : Apart hash known bits)
    (probe_mask fuel : ℕ) (ends : Ends hash known bits probe_mask fuel) (m : ObjectMap)
    (entry : Entry) (fit : IsFit hash known bits m entry) where
  abbrev Inserts : Type 0
  Inserts =
      (m' : ObjectMap) × (i : ℕ) × (insert hash probe_mask (suc fuel) m entry ≡ some (m', true, i))
      × Adds hash known bits m entry m' i
