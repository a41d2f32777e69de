-- ===== src/Rt/ObjectMap/Keeps.antt =====
-- The invariant of a map of src/rt/ds/hashmap.h, and what a pass of `insert` makes of its entries.
use verona.Prelude.{
  ℕ, zero, suc, ◌+◌, ◌%◌, ◌≤◌, ◌<◌, ◌≡◌, refl, sym, ap, subst, ◌∙◌, inl, inr, ◌⊎◌, Bool, true,
  Option, none, some, [], ◌∷◌, set, length, length-set, bit, ◌==◌, ltb, arith, Bool-cases, eq_of_==,
  ne_of_==, some-injective,
}
use verona.Rt.ObjectMap.Defs.{
  Entry, Slots, ObjectMap, slot, capacity, advance, place_entry, Carry, Pass, updated, added,
  overflow, out_of_fuel, carry_on, insert_loop,
}
use verona.Rt.ObjectMap.Walk.{
  walk, walk-advance, advance-lt, slot-set_same, slot-set_other, Clear, Clear-set, holds,
  occurrences,
}

module _ (hash : ℕ → ℕ) where
  -- The slot that an entry is to have in a map of some capacity.
  abbrev pub home : ℕ → ℕ → ℕ
  home room key = hash key % room

  -- As many slots as the capacity; and every entry is as many slots behind its own as its probe length
  -- says, which is not above the longest.
  pub record IsMap (m : ObjectMap) : Type 0 where
    pub sized : length m.slots ≡ capacity m
    pub filled : occurrences (λ k v. true) m.slots ≡ m.filled_slots
    pub placed :
        (i : ℕ) (e : Entry)
        → slot m.slots i ≡ some e
        → walk (capacity m) e.probe (home (capacity m) e.key) ≡ i
    pub bounded : (i : ℕ) (e : Entry) → slot m.slots i ≡ some e → e.probe ≤ m.longest_probe

  -- What the loop of `insert` has at a slot, `d` steps before an empty one.
  pub record IsCarry (key d : ℕ) (c : Carry) : Type 0 where
    pub valid : IsMap c.map
    pub inside : c.index < capacity c.map
    pub there : walk (capacity c.map) c.probe_len (home (capacity c.map) c.entry.key) ≡ c.index
    pub clear : Clear (capacity c.map) key c.map.slots d c.index

  -- The entries with the one in hand.
  abbrev total : (ℕ → ℕ → Bool) → Carry → ℕ
  total P c = occurrences P c.map.slots + bit (P c.entry.key c.entry.value)

pub slot-lt : (xs : Slots) (i : ℕ) {e : Entry} → slot xs i ≡ some e → i < length xs
slot-lt [] i h = cc
slot-lt (x ∷ xs) zero h = omega arith
slot-lt (x ∷ xs) (suc i) h = omega (arith, slot-lt xs i h)

pub occurrences-set :
    (P : ℕ → ℕ → Bool) (xs : Slots) (i : ℕ) (s : Option Entry)
    → i < length xs
    → occurrences P (set xs i s) + bit (holds P (slot xs i)) ≡ occurrences P xs + bit (holds P s)
occurrences-set P [] i s h = absurd (omega arith)
occurrences-set P (x ∷ xs) zero s h = omega arith
occurrences-set P (x ∷ xs) (suc i) s h = omega (arith, occurrences-set P xs i s (omega arith))

module _ (hash : ℕ → ℕ) (m : ObjectMap) (valid : IsMap hash m) (e : Entry) (i p : ℕ)
    (inside : i < capacity m) (there : walk (capacity m) p (home hash (capacity m) e.key) ≡ i) where
  abbrev pub entry_there : Entry
  entry_there = record e { probe = p }

  pub slot_after :
      (j : ℕ) (f : Entry)
      → slot (set m.slots i (some entry_there)) j ≡ some f
      → (j ≡ i × f ≡ entry_there) ⊎ (slot m.slots j ≡ some f)
  slot_after j f h = elim (Bool-cases (j == i)) [
    | inl same ↦
        let here = slot-set_same m.slots i (some entry_there) (omega (arith, valid.sized)) in
        let here' =
          subst (λ k. slot (set m.slots i (some entry_there)) k ≡ some entry_there)
            (sym (eq_of_== j i same)) here in
        inl (eq_of_== j i same, some-injective _ _ (sym h ∙ here'))
    | inr apart ↦ inr (sym (slot-set_other m.slots i j (some entry_there) (ne_of_== j i apart)) ∙ h)
  ]

  placed_after :
      (j : ℕ) (f : Entry)
      → slot (place_entry e i p m).slots j ≡ some f
      → walk (capacity m) f.probe (home hash (capacity m) f.key) ≡ j
  unfolding place_entry
  placed_after j f h = elim (slot_after j f h) [
    | inl (same, is_e) ↦
        subst (λ g. walk (capacity m) g.probe (home hash (capacity m) g.key) ≡ j) (sym is_e)
          (there ∙ sym same)
    | inr old ↦ valid.placed j f old
  ]

  bounded_after :
      (j : ℕ) (f : Entry)
      → slot (place_entry e i p m).slots j ≡ some f
      → f.probe ≤ (place_entry e i p m).longest_probe
  unfolding place_entry
  bounded_after j f h = elim (slot_after j f h) [
    | inl (same, is_e) ↦ let probe = ap (λ g. g.probe) is_e in ground arith
    | inr old ↦ let low = valid.bounded j f old in ground arith
  ]

  occurrences_after :
      (P : ℕ → ℕ → Bool)
      → occurrences P (place_entry e i p m).slots + bit (holds P (slot m.slots i))
        ≡ occurrences P m.slots + bit (P e.key e.value)
  unfolding place_entry
  occurrences_after P = occurrences-set P m.slots i (some entry_there) (omega (arith, valid.sized))

  -- In place of another entry.
  pub swap-IsMap : (k : Entry) → slot m.slots i ≡ some k → IsMap hash (place_entry e i p m)
  unfolding place_entry
  swap-IsMap k h = record {
    sized = length-set m.slots i _ ∙ valid.sized;
    filled = omega (
      arith,
      occurrences_after (λ k v. true),
      ap (λ s. bit (holds (λ k v. true) s)) h,
      valid.filled,
    );
    placed = placed_after;
    bounded = bounded_after;
  }

  -- In an empty slot.
  add-IsMap :
      slot m.slots i ≡ none
      → IsMap hash (record (place_entry e i p m) { filled_slots = suc m.filled_slots })
  unfolding place_entry
  add-IsMap h = record {
    sized = length-set m.slots i _ ∙ valid.sized;
    filled = omega (
      arith,
      occurrences_after (λ k v. true),
      ap (λ s. bit (holds (λ k v. true) s)) h,
      valid.filled,
    );
    placed = placed_after;
    bounded = bounded_after;
  }

module _ (hash : ℕ → ℕ) (P : ℕ → ℕ → Bool) where
  -- What a pass comes to when `before` entries with a property are in the map or in hand, and `filled`
  -- slots are filled.
  abbrev pub Passes : ℕ → ℕ → Pass → Type 0
  Passes before filled (added m i) =
      IsMap hash m × (m.filled_slots ≡ suc filled) × (occurrences P m.slots ≡ before)
  Passes before filled (overflow m e) =
      IsMap hash m
      × (m.filled_slots ≡ filled)
      × (occurrences P m.slots + bit (P e.key e.value) ≡ before)
  Passes before filled (updated m i) = ⊥
  Passes before filled out_of_fuel = ⊥

  pub carry_on-IsCarry :
      (key : ℕ) (k : Entry) (d : ℕ) (c : Carry)
      → slot c.map.slots c.index ≡ some k
      → IsCarry hash key (suc d) c
      → IsCarry hash key d (carry_on k c)
        × (total hash P (carry_on k c) ≡ total hash P c)
        × ((carry_on k c).map.filled_slots ≡ c.map.filled_slots)
  unfolding carry_on
  carry_on-IsCarry key k d c e h = elim (Bool-cases (ltb k.probe c.probe_len)) [
    | inl swaps ↦ rw swaps (
      record {
        valid = swap-IsMap hash c.map h.valid c.entry c.index c.probe_len h.inside h.there k e;
        inside = advance-lt _ _ h.inside;
        there =
            walk-advance _ k.probe _ ∙ ap (advance (capacity c.map)) (h.valid.placed c.index k e);
        clear =
            Clear-set (capacity c.map) key c.map.slots d (suc d) c.index _ _ h.clear.1 h.clear
              (omega arith);
      },
      omega (
        arith,
        occurrences_after hash c.map h.valid c.entry c.index c.probe_len h.inside h.there P,
        ap (λ s. bit (holds P s)) e,
      ),
      refl,
    )
    | inr stays ↦ rw stays (
      record {
        valid = h.valid;
        inside = advance-lt _ _ h.inside;
        there = walk-advance _ c.probe_len _ ∙ ap (advance (capacity c.map)) h.there;
        clear = h.clear.1;
      },
      refl,
      refl,
    )
  ]

  pub insert_loop-Passes :
      (probe_mask key fuel d : ℕ) (c : Carry)
      → d < fuel
      → IsCarry hash key d c
      → Passes (total hash P c) c.map.filled_slots (insert_loop probe_mask key fuel c)
  unfolding insert_loop
  insert_loop-Passes probe_mask key zero d c low h = absurd (omega arith)
  insert_loop-Passes probe_mask key (suc fuel) zero c low h =
      let sum =
        occurrences_after hash c.map h.valid c.entry c.index c.probe_len h.inside h.there P in
      let was_empty = ap (λ s. bit (holds P s)) h.clear in
      elim (Bool-cases (ltb probe_mask c.probe_len)) [
        | inl long ↦ rw long (h.valid, refl, refl)
        | inr short ↦
            rw (short, h.clear)
              (
                add-IsMap hash c.map h.valid c.entry c.index c.probe_len h.inside h.there h.clear,
                refl,
                omega (arith, sum, was_empty),
              )
      ]
  insert_loop-Passes probe_mask key (suc fuel) (suc d) c low h =
      let ((k, e, other), ahead) = h.clear in
      let (next, same_total, same_filled) = carry_on-IsCarry key k d c e h in
      elim (Bool-cases (ltb probe_mask c.probe_len)) [
        | inl long ↦ rw long (h.valid, refl, refl)
        | inr short ↦
            rw (short, e, other)
              (subst
                (λ n. Passes n c.map.filled_slots (insert_loop probe_mask key fuel (carry_on k c)))
                same_total
                (subst
                  (λ n.
                    Passes (total hash P (carry_on k c)) n
                      (insert_loop probe_mask key fuel (carry_on k c)))
                  same_filled
                  (insert_loop-Passes probe_mask key fuel d (carry_on k c) (omega arith) next)))
      ]
