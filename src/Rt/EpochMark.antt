-- ===== src/Rt/EpochMark.antt =====
-- The scan marks of the leak detector, `EpochMark` of src/rt/object/object.h.
use verona.Prelude.{ℕ, Bool, ◌==◌}

pub data EpochMark : Type 0 where
  epoch_none epoch_a epoch_b scheduled_for_scan scanned : EpochMark

-- The enumerator's value.
abbrev pub mark_value : EpochMark → ℕ
mark_value epoch_none = 0
mark_value epoch_a = 1
mark_value epoch_b = 2
mark_value scheduled_for_scan = 3
mark_value scanned = 4

abbrev pub mark_eq : EpochMark → EpochMark → Bool
mark_eq a b = mark_value a == mark_value b
