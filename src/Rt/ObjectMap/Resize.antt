-- ===== src/Rt/ObjectMap/Resize.antt =====
-- `insert` of src/rt/ds/hashmap.h as a whole, with `resize`, and `clear`.
use verona.Prelude.{
  ℕ, zero, suc, ◌-◌, ◌^◌, ◌<◌, ◌≡◌, refl, sym, ap, ◌∙◌, inl, inr, Bool-cases, Bool, true, false,
  not, ◌&&◌, Option, none, some, [], ◌∷◌, length, replicate, length-replicate, ◌==◌, ltb,
  if◌then◌else◌, arith,
}
use verona.Rt.ObjectMap.Defs.{
  Entry, Slots, ObjectMap, slot, capacity, init_alloc, holds_key, find, updated, added, overflow,
  out_of_fuel, insert_pass,
}
use verona.Rt.ObjectMap.Walk.{occurrences}
use verona.Rt.ObjectMap.Keeps.{IsMap}

-- The map, whether a new key was inserted, and the index of its entry.
abbrev pub Inserted : Type 0
Inserted = ObjectMap × Bool × ℕ

-- The loop of `resize` over the slots of the map before; a key loses its mark.
unfoldable pub reinsert :
    (ObjectMap → Entry → Option Inserted) → Slots → ObjectMap → Option ObjectMap
reinsert insert_into [] m = some m
reinsert insert_into (none ∷ slots) m = reinsert insert_into slots m
reinsert insert_into (some e ∷ slots) m =
    elim (insert_into m (record e { marked = false; probe = 0 })) [
      | none ↦ none
      | some (after, _, _) ↦ reinsert insert_into slots after
    ]

unfoldable pub resize : (ObjectMap → Entry → Option Inserted) → ObjectMap → Option ObjectMap
unfolding reinsert
resize insert_into m = reinsert insert_into m.slots (record {
  slots = replicate (2 ^ suc m.capacity_shift) none;
  filled_slots = 0;
  capacity_shift = suc m.capacity_shift;
  longest_probe = 0;
})

-- The index that `find` gives; the capacity is `end()`.
abbrev pub index_in : ObjectMap → Option ℕ → ℕ
index_in m none = capacity m
index_in m (some i) = i

-- The fuel is the depth of the calls, each of which may resize the map.
unfoldable pub insert : (ℕ → ℕ) → ℕ → ℕ → ObjectMap → Entry → Option Inserted
unfolding resize
insert hash probe_mask zero m entry = none
insert hash probe_mask (suc fuel) m entry =
    let insert_into = insert hash probe_mask fuel in
    let room = if m.filled_slots == capacity m then resize insert_into m else some m in
    elim room [
      | none ↦ none
      | some m₀ ↦ elim (insert_pass hash probe_mask m₀ entry) [
        | updated m₁ i ↦ some (m₁, false, i)
        | added m₁ i ↦ some (m₁, true, i)
        | overflow m₁ left ↦ elim (resize insert_into m₁) [
          | none ↦ none
          | some m₂ ↦ elim (insert_into m₂ left) [
            | none ↦ none
            | some (m₃, _, i) ↦
                let j =
                  if holds_key entry.key (slot m₃.slots i)
                  then i
                  else index_in m₃ (find hash m₃ entry.key) in
                some (m₃, true, j)
          ]
        ]
        | out_of_fuel ↦ none
      ]
    ]

-- The loop of `clear`: the slots, and how many are filled.
unfoldable pub clear_loop : Slots → ℕ → Slots × ℕ
clear_loop [] filled = ([], filled)
clear_loop (none ∷ slots) filled = let (rest, left) = clear_loop slots filled in (none ∷ rest, left)
clear_loop (some e ∷ slots) filled =
    let (rest, left) = clear_loop slots (filled - 1) in (none ∷ rest, left)

unfoldable pub clear : Bool → ObjectMap → ObjectMap
unfolding clear_loop
clear skip_deallocate m =
    let (slots, left) = clear_loop m.slots m.filled_slots in
    if not skip_deallocate && ltb 8 (capacity m)
    then record init_alloc { filled_slots = left }
    else record m { slots = slots; filled_slots = left; longest_probe = 0 }

-- Where the map is not full and a pass adds the entry, `insert` returns with what the pass made,
-- without a call of itself.
pub insert-insert_pass :
    (hash : ℕ → ℕ) (probe_mask fuel : ℕ) (m : ObjectMap) (entry : Entry) {m' : ObjectMap} {i : ℕ}
    → m.filled_slots < capacity m
    → insert_pass hash probe_mask m entry ≡ added m' i
    → insert hash probe_mask (suc fuel) m entry ≡ some (m', true, i)
unfolding insert
insert-insert_pass hash probe_mask fuel m entry space run =
    let not_full : (m.filled_slots == capacity m) ≡ false = ground arith in
    rw (insert, not_full, run) refl

clear_loop_slots : (xs : Slots) (filled : ℕ) → (clear_loop xs filled).0 ≡ replicate (length xs) none
unfolding clear_loop
clear_loop_slots [] filled = refl
clear_loop_slots (none ∷ xs) filled = ap (λ ys. none ∷ ys) (clear_loop_slots xs filled)
clear_loop_slots (some e ∷ xs) filled = ap (λ ys. none ∷ ys) (clear_loop_slots xs (filled - 1))

clear_loop_left :
    (xs : Slots) (filled : ℕ) → (clear_loop xs filled).1 ≡ filled - occurrences (λ k v. true) xs
unfolding clear_loop
clear_loop_left [] filled = omega arith
clear_loop_left (none ∷ xs) filled = omega (arith, clear_loop_left xs filled)
clear_loop_left (some e ∷ xs) filled = omega (arith, clear_loop_left xs (filled - 1))

pub slot-replicate : (n i : ℕ) → slot (replicate n none) i ≡ none
slot-replicate zero i = refl
slot-replicate (suc n) zero = refl
slot-replicate (suc n) (suc i) = slot-replicate n i

pub occurrences-replicate : (P : ℕ → ℕ → Bool) (n : ℕ) → occurrences P (replicate n none) ≡ 0
occurrences-replicate P zero = refl
occurrences-replicate P (suc n) = omega (arith, occurrences-replicate P n)

pub empty-IsMap :
    (hash : ℕ → ℕ) (m : ObjectMap)
    → m.slots ≡ replicate (capacity m) none
    → m.filled_slots ≡ 0
    → IsMap hash m
empty-IsMap hash m e none_filled = record {
  sized = ap length e ∙ length-replicate none (capacity m);
  filled =
      ap (occurrences (λ k v. true)) e ∙ occurrences-replicate _ (capacity m) ∙ sym none_filled;
  placed = λ i entry h. absurd (cc (ap (λ xs. slot xs i) e, slot-replicate (capacity m) i, h));
  bounded = λ i entry h. absurd (cc (ap (λ xs. slot xs i) e, slot-replicate (capacity m) i, h));
}

-- `clear` leaves a map without entries that keeps the invariant.
pub clear-IsMap :
    (hash : ℕ → ℕ) (skip_deallocate : Bool) (m : ObjectMap) (P : ℕ → ℕ → Bool)
    → IsMap hash m
    → IsMap hash (clear skip_deallocate m)
      × ((clear skip_deallocate m).filled_slots ≡ 0)
      × (occurrences P (clear skip_deallocate m).slots ≡ 0)
unfolding clear init_alloc
clear-IsMap hash skip_deallocate m P valid =
    elim (Bool-cases (not skip_deallocate && ltb 8 (capacity m))) [
      | inl shrinks ↦ rw shrinks (empty-IsMap hash _ refl left, left, occurrences-replicate P 8)
      | inr keeps ↦ rw keeps (
        empty-IsMap hash _ slots left,
        left,
        ap (occurrences P) slots ∙ occurrences-replicate P (capacity m),
      )
    ]
  where
    left : (clear_loop m.slots m.filled_slots).1 ≡ 0
    left = omega (arith, clear_loop_left m.slots m.filled_slots, valid.filled)

    slots : (clear_loop m.slots m.filled_slots).0 ≡ replicate (capacity m) none
    slots = clear_loop_slots m.slots m.filled_slots ∙ ap (λ n. replicate n none) valid.sized
