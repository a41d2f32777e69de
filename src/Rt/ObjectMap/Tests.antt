-- ===== src/Rt/ObjectMap/Tests.antt =====
-- Runs of a map of src/rt/ds/hashmap.h, and concrete uses of its properties.
use verona.Prelude.{
  [], ◌∷◌, Option, ◌||◌, Bool, ℕ, ◌/◌, ◌≡◌, refl, true, false, none, some, ◌==◌, arith,
}
use verona.Rt.ObjectMap.Defs.{
  Entry, ObjectMap, slot, init_alloc, find, Pass, updated, added, overflow, out_of_fuel, carry_on,
  insert_loop, insert_pass, erase, hash,
}
use verona.Rt.ObjectMap.Keeps.{IsMap}
use verona.Rt.ObjectMap.Resize.{slot-replicate, Inserted, insert, resize, reinsert}
use verona.Rt.ObjectMap.Insert.{Fresh, insert_pass-Passes}
use verona.Rt.ObjectMap.Iterate.{visit, begin, step_on}

abbrev map_of : Pass → ObjectMap
map_of (updated m i) = m
map_of (added m i) = m
map_of (overflow m e) = m
map_of out_of_fuel = init_alloc

abbrev entry_of : ℕ → ℕ → Entry
entry_of key value = record { key = key; marked = false; probe = 0; value = value }

nothing : (i : ℕ) (e : Entry) → slot init_alloc.slots i ≡ some e → ⊥
unfolding init_alloc
nothing i e h = cc (slot-replicate 8 i)

init_alloc-IsMap : (hash : ℕ → ℕ) → IsMap hash init_alloc
unfolding init_alloc
init_alloc-IsMap hash = record {
  sized = refl;
  filled = refl;
  placed = λ i e h. absurd (nothing i e h);
  bounded = λ i e h. absurd (nothing i e h);
}

abbrev first_entry : Entry
first_entry = entry_of 128 5

abbrev first_pass : Pass
first_pass = insert_pass hash 7 init_alloc first_entry

first-Fresh : (key : ℕ) → Fresh key init_alloc
first-Fresh key k i h = absurd (nothing i k h)

abbrev index_of : Pass → ℕ
index_of (added m i) = i
index_of _ = 0

first_run : first_pass ≡ added (map_of first_pass) (index_of first_pass)
unfolding init_alloc insert_pass insert_loop hash
first_run = refl

first_IsMap : IsMap hash (map_of first_pass)
unfolding init_alloc insert_pass insert_loop hash
first_IsMap =
    (insert_pass-Passes hash 7 init_alloc first_entry (init_alloc-IsMap hash) (omega arith)
      (first-Fresh 128) (λ k v. true)).0

-- A map of eight slots whose keys are apart by 16, so that their slots are easily read off.
abbrev near : ℕ → ℕ
near key = key / 16

abbrev put : ℕ → ℕ → ObjectMap → ObjectMap
put key value m = map_of (insert_pass near 7 m (entry_of key value))

-- Three keys that share their slot, one of which is erased; a key whose slot is the hole; and the
-- third again.
abbrev crowded : ObjectMap
crowded = put 384 3 (put 256 2 (put 128 1 init_alloc))

abbrev with_hole : ObjectMap
with_hole = put 144 4 (erase near crowded 256).0

found_before : find near with_hole 144 ≡ some 1
unfolding init_alloc insert_pass insert_loop carry_on erase find
found_before = refl

-- To insert a key that is there takes another entry out of the map.
lost_entry : find near (put 384 5 with_hole) 144 ≡ none
unfolding init_alloc insert_pass insert_loop carry_on erase find
lost_entry = refl

-- Two keys that share a slot, where no probing is allowed: the map doubles and keeps both.
abbrev doubled : Option Inserted
doubled = insert near 0 3 (put 128 1 init_alloc) (entry_of 256 2)

-- The capacity's shift, how many slots are filled, and the index that is returned.
abbrev summary : Option Inserted → ℕ × ℕ × ℕ
summary none = (0, 0, 0)
summary (some (m, _, i)) = (m.capacity_shift, m.filled_slots, i)

doubled_keeps : summary doubled ≡ (4, 2, 0)
unfolding init_alloc insert_pass insert_loop carry_on find insert resize reinsert
doubled_keeps = refl

-- The keys 128 and 256, which four bits of their hashes tell apart.
abbrev two_keys : ℕ → Bool
two_keys key = key == 128 || key == 256

abbrev one_entry : ObjectMap
one_entry = put 128 1 init_alloc

-- The three entries of a map.
crowded_visits : visit 9 crowded (begin crowded) ≡ some (0 ∷ 1 ∷ 2 ∷ [])
unfolding init_alloc insert_pass insert_loop carry_on visit begin step_on
crowded_visits = refl
