-- ===== src/Rt/ObjectMap/Rehash.antt =====
-- What `resize` of src/rt/ds/hashmap.h makes of a map, where the calls of `insert` in it end.
use native.Mathlib.Nat
use verona.Prelude.{
  ℕ, suc, ◌+◌, ◌^◌, ◌≤◌, ◌<◌, ◌≡◌, refl, ap, ◌∙◌, inl, inr, ◌⊎◌, Bool, true, false, Option, none,
  some, [], ◌∷◌, replicate, bit, ◌==◌, arith, count-le, ==_self, two_pow,
}
use verona.Rt.ObjectMap.Defs.{Entry, Slots, ObjectMap, slot, capacity, holds_key}
use verona.Rt.ObjectMap.Walk.{occurrences, holds}
use verona.Rt.ObjectMap.Keeps.{IsMap}
use verona.Rt.ObjectMap.Insert.{Fresh, occurrences-fails}
use verona.Rt.ObjectMap.Resize.{
  Inserted, reinsert, resize, insert, slot-replicate, occurrences-replicate, empty-IsMap,
}
use verona.Rt.ObjectMap.Home.{AtHome, strange}

abbrev pub has : ℕ → ℕ → ℕ → Bool
has key k v = k == key

abbrev pub every : ℕ → ℕ → Bool
every k v = true

abbrev pub counts : (ℕ → ℕ → Bool) → Entry → ℕ
counts P e = bit (P e.key e.value)

pub few : (hash : ℕ → ℕ) (m : ObjectMap) → IsMap hash m → m.filled_slots ≤ capacity m
few hash m valid = omega (arith, valid.filled, valid.sized, count-le (holds every) m.slots)

le_or_lt : (a b : ℕ) → a ≤ b ⊎ b < a
le_or_lt a b = ground arith

module _ (hash : ℕ → ℕ) (known : ℕ → Bool) (bits : ℕ) where
  -- The keys of the map and of a new entry are known, and none is there twice.
  pub record IsFit (m : ObjectMap) (entry : Entry) : Type 0 where
    pub valid : IsMap hash m
    pub distinct : (key : ℕ) → occurrences (has key) m.slots + counts (has key) entry ≤ 1
    pub familiar : occurrences (strange known) m.slots + counts (strange known) entry ≡ 0

  -- Once the capacity tells the keys apart, every entry is in its own slot.
  abbrev pub IsTidy : ObjectMap → Type 0
  IsTidy m = bits ≤ m.capacity_shift → AtHome m

  -- What `insert` makes of a map, and the index that it returns.
  pub record Adds (m : ObjectMap) (entry : Entry) (m' : ObjectMap) (i : ℕ) : Type 0 where
    pub valid : IsMap hash m'
    pub tidy : IsTidy m → IsTidy m'
    pub grows : m.capacity_shift ≤ m'.capacity_shift
    pub filled : m'.filled_slots ≡ suc m.filled_slots
    pub sum :
        (P : ℕ → ℕ → Bool)
        → occurrences P m'.slots ≡ occurrences P m.slots + bit (P entry.key entry.value)
    pub index : (entry.key == 0) ≡ false → holds_key entry.key (slot m'.slots i) ≡ true

  -- A depth of calls that is enough.
  abbrev pub IsEnough : ℕ → ObjectMap → Type 0
  IsEnough fuel m =
      (0 < fuel × bits ≤ m.capacity_shift × AtHome m × m.filled_slots < capacity m)
      ⊎ (1 < fuel × bits < m.capacity_shift + fuel)

  abbrev pub Ends : ℕ → ℕ → Type 0
  Ends probe_mask fuel =
      (m : ObjectMap) (entry : Entry)
      → IsFit m entry
      → IsEnough fuel m
      → (m' : ObjectMap) × (i : ℕ) × (insert hash probe_mask fuel m entry ≡ some (m', true, i))
        × Adds m entry m' i

  pub IsFit-Fresh : (m : ObjectMap) (entry : Entry) → IsFit m entry → Fresh entry.key m
  IsFit-Fresh m entry fit k i at_i =
      let new_key : counts (has entry.key) entry ≡ 1 = ap bit (==_self entry.key) in
      occurrences-fails (has entry.key) m.slots i k (omega (arith, fit.distinct entry.key)) at_i

  pub tidy-IsEnough :
      (fuel low : ℕ) (m : ObjectMap)
      → 0 < fuel
      → bits < low + fuel
      → low ≤ m.capacity_shift
      → m.filled_slots < capacity m
      → IsTidy m
      → IsEnough fuel m
  tidy-IsEnough fuel low m pos enough grown room tidy = elim (le_or_lt bits m.capacity_shift) [
    | inl wide ↦ inl (pos, wide, tidy wide, room)
    | inr narrow ↦ inr (omega arith, omega arith)
  ]

  -- What `resize` makes of a map: at least so many slots, so many filled, and these entries.
  pub record Holds (low filled : ℕ) (total : (ℕ → ℕ → Bool) → ℕ) (m : ObjectMap) : Type 0 where
    pub valid : IsMap hash m
    pub tidy : IsTidy m
    pub grows : low ≤ m.capacity_shift
    pub count : m.filled_slots ≡ filled
    pub sum : (P : ℕ → ℕ → Bool) → occurrences P m.slots ≡ total P

reinsert-some :
    (insert_into : ObjectMap → Entry → Option Inserted) (e : Entry) (slots : Slots) (m : ObjectMap)
    {m₁ : ObjectMap} {b : Bool} {i : ℕ}
    → insert_into m (record e { marked = false; probe = 0 }) ≡ some (m₁, b, i)
    → reinsert insert_into (some e ∷ slots) m ≡ reinsert insert_into slots m₁
unfolding reinsert
reinsert-some insert_into e slots m run = rw (run, reinsert) refl

module _ (hash : ℕ → ℕ) (known : ℕ → Bool) (bits probe_mask fuel low room : ℕ)
    (ends : Ends hash known bits probe_mask fuel) (pos : 0 < fuel) (enough : bits < low + fuel)
    (space : room < 2 ^ low) where
  reinsert-Holds :
      (slots : Slots) (m : ObjectMap)
      → IsMap hash m
      → IsTidy hash known bits m
      → low ≤ m.capacity_shift
      → m.filled_slots + occurrences every slots ≤ room
      → ((key : ℕ) → occurrences (has key) m.slots + occurrences (has key) slots ≤ 1)
      → occurrences (strange known) m.slots + occurrences (strange known) slots ≡ 0
      → (m' : ObjectMap) × (reinsert (insert hash probe_mask fuel) slots m ≡ some m')
        × Holds hash known bits low
            (m.filled_slots + occurrences every slots)
            (λ P. occurrences P m.slots + occurrences P slots)
            m'
  unfolding reinsert
  reinsert-Holds [] m valid tidy grown fits once all_known = (
    m,
    refl,
    record {
      valid = valid;
      tidy = tidy;
      grows = grown;
      count = omega arith;
      sum = λ P. omega arith;
    },
  )
  reinsert-Holds (none ∷ slots) m valid tidy grown fits once all_known =
      let (m', run, held) =
        reinsert-Holds slots m valid tidy grown (omega arith) (λ key. omega (arith, once key))
          (omega arith) in
      (
        m',
        run,
        record {
          valid = held.valid;
          tidy = held.tidy;
          grows = held.grows;
          count = held.count ∙ omega arith;
          sum = λ P. held.sum P ∙ omega arith;
        },
      )
  reinsert-Holds (some e ∷ slots) m valid tidy grown fits once all_known =
      let entry : Entry = record e { marked = false; probe = 0 } in
      let wide = Nat.pow-le-pow_right {n = 2} (omega arith) grown in
      let fit : IsFit hash known bits m entry = record {
        valid = valid;
        distinct = λ key. omega (arith, once key);
        familiar = omega arith;
      } in
      let (m₁, i, run, new) =
        ends m entry fit
          (tidy-IsEnough hash known bits fuel low m pos enough grown (omega arith) tidy) in
      let (m', rest, held) =
        reinsert-Holds slots m₁ new.valid (new.tidy tidy) (omega (arith, new.grows))
          (omega (arith, new.filled)) (λ key. omega (arith, once key, new.sum (has key)))
          (omega (arith, new.sum (strange known))) in
      (
        m',
        reinsert-some (insert hash probe_mask fuel) e slots m run ∙ rest,
        record {
          valid = held.valid;
          tidy = held.tidy;
          grows = held.grows;
          count = omega (arith, held.count, new.filled);
          sum = λ P. omega (arith, held.sum P, new.sum P);
        },
      )

module _ (hash : ℕ → ℕ) (known : ℕ → Bool) (bits probe_mask fuel : ℕ)
    (ends : Ends hash known bits probe_mask fuel) (m : ObjectMap) (pos : 0 < fuel)
    (enough : bits < suc m.capacity_shift + fuel) (valid : IsMap hash m)
    (once : (key : ℕ) → occurrences (has key) m.slots ≤ 1)
    (all_known : occurrences (strange known) m.slots ≡ 0) where
  -- `resize` ends with a tidy map that has the same entries and is not full.
  pub resize-Holds :
      (m' : ObjectMap) × (resize (insert hash probe_mask fuel) m ≡ some m')
      × Holds hash known bits (suc m.capacity_shift) m.filled_slots (λ P. occurrences P m.slots) m'
      × (m'.filled_slots < capacity m')
  unfolding resize
  resize-Holds =
      let start : ObjectMap = record {
        slots = replicate (2 ^ suc m.capacity_shift) none;
        filled_slots = 0;
        capacity_shift = suc m.capacity_shift;
        longest_probe = 0;
      } in
      let double = Nat.pow-suc 2 m.capacity_shift in
      let none_there = λ (P : ℕ → ℕ → Bool). occurrences-replicate P (2 ^ suc m.capacity_shift) in
      let (m', run, held) =
        reinsert-Holds hash known bits probe_mask fuel (suc m.capacity_shift) (capacity m) ends pos
          enough (omega (arith, two_pow m.capacity_shift)) m.slots start
          (empty-IsMap hash start refl refl)
          (λ wide i e h. absurd (cc (slot-replicate (2 ^ suc m.capacity_shift) i, h))) (omega arith)
          (omega (arith, few hash m valid, valid.filled))
          (λ key. omega (arith, once key, none_there (has key)))
          (omega (arith, none_there (strange known))) in
      let wide = Nat.pow-le-pow_right {n = 2} (omega arith) held.grows in
      (
        m',
        run,
        record {
          valid = held.valid;
          tidy = held.tidy;
          grows = held.grows;
          count = omega (arith, held.count, valid.filled);
          sum = λ P. omega (arith, held.sum P, none_there P);
        },
        omega (arith, held.count, valid.filled, few hash m valid, two_pow m.capacity_shift),
      )
