-- ===== src/Rt/ObjectMap/Defs.antt =====
-- `ObjectMap` of src/rt/ds/hashmap.h for entries of a key and a value, both numbers. The word of a key
-- is taken apart into the key, the mark and the probe length; a slot whose word is 0 is `none`.
-- `hash` is `bits::hash` at the identity of a key, and `probe_mask` is `PROBE_MASK`, which comes from
-- the alignment of objects.
use Prim.Native.Nat.{bit_xor}
use verona.Prelude.{
  ◌*◌, ◌/◌, ℕ, zero, suc, ◌+◌, ◌-◌, ◌%◌, ◌^◌, Bool, true, false, Option, none, some, List,
  get_elem?, set, replicate, ◌==◌, ltb, if◌then◌else◌,
}

pub record Entry : Type 0 where
  pub key : ℕ
  pub marked : Bool
  pub probe : ℕ
  pub value : ℕ

abbrev pub Slots : Type 0
Slots = List (Option Entry)

pub record ObjectMap : Type 0 where
  pub slots : Slots
  pub filled_slots : ℕ
  pub capacity_shift : ℕ
  pub longest_probe : ℕ

-- `slots[index]`, at an index below the capacity.
abbrev pub slot : Slots → ℕ → Option Entry
slot slots index = elim (get_elem? slots index) [ none ↦ none | some s ↦ s ]

abbrev pub capacity : ObjectMap → ℕ
capacity m = 2 ^ m.capacity_shift

-- `if (++index == capacity()) index = 0`.
abbrev pub advance : ℕ → ℕ → ℕ
advance cap index = if suc index == cap then 0 else suc index

-- The constructor: eight slots, and a `longest_probe` of 0.
unfoldable pub init_alloc : ObjectMap
init_alloc = record {
  slots = replicate 8 none;
  filled_slots = 0;
  capacity_shift = 3;
  longest_probe = 0;
}

unfoldable pub place_entry : Entry → ℕ → ℕ → ObjectMap → ObjectMap
place_entry entry index probe_len m = record m {
  slots = set m.slots index (some (record entry { probe = probe_len }));
  longest_probe = if ltb m.longest_probe probe_len then probe_len else m.longest_probe;
}

-- Whether the word of a slot is that of a key that is not null.
abbrev pub holds_key : ℕ → Option Entry → Bool
holds_key key none = false
holds_key key (some e) = e.key == key

unfoldable pub find_loop : ℕ → Slots → ℕ → ℕ → ℕ → Option ℕ
find_loop zero slots cap index key = none
find_loop (suc rounds) slots cap index key =
    let rest = find_loop rounds slots cap (advance cap index) key in
    if holds_key key (slot slots index) then some index else rest

-- The index of the entry; `none` is `end()`.
unfoldable pub find : (ℕ → ℕ) → ObjectMap → ℕ → Option ℕ
unfolding find_loop
find hash m key =
    if key == 0
    then none
    else find_loop (suc m.longest_probe) m.slots (capacity m) (hash key % capacity m) key

-- The locals of the loop of `insert`.
pub record Carry : Type 0 where
  pub map : ObjectMap
  pub entry : Entry
  pub index : ℕ
  pub probe_len : ℕ
  pub iter_index : Option ℕ

abbrev pub first_index : Option ℕ → ℕ → ℕ
first_index none index = index
first_index (some i) index = i

-- How the loop ends: at the key, in an empty slot, or with an entry in hand at the maximum probe
-- length.
pub data Pass : Type 0 where
  updated : ObjectMap → ℕ → Pass
  added : ObjectMap → ℕ → Pass
  overflow : ObjectMap → Entry → Pass
  out_of_fuel : Pass

-- What is carried on from a slot that has the entry `k`: where its probe length is less, it is
-- swapped with the entry in hand.
unfoldable pub carry_on : Entry → Carry → Carry
unfolding place_entry
carry_on k c =
    let index = advance (capacity c.map) c.index in
    if ltb k.probe c.probe_len
    then record {
      map = place_entry c.entry c.index c.probe_len c.map;
      entry = k;
      index = index;
      probe_len = suc k.probe;
      iter_index = some (first_index c.iter_index c.index);
    }
    else record c { index = index; probe_len = suc c.probe_len }

-- An existing entry is not changed: the assignment is to the entry in hand.
unfoldable pub insert_loop : ℕ → ℕ → ℕ → Carry → Pass
unfolding place_entry
insert_loop probe_mask key zero c = out_of_fuel
insert_loop probe_mask key (suc fuel) c =
    if ltb probe_mask c.probe_len then overflow c.map c.entry else elim (slot c.map.slots c.index) [
      | none ↦
          added
            (record (place_entry c.entry c.index c.probe_len c.map) {
              filled_slots = suc c.map.filled_slots;
            })
            (first_index c.iter_index c.index)
      | some k ↦
          let rest = insert_loop probe_mask key fuel (carry_on k c) in
          if k.key == key then updated c.map (first_index c.iter_index c.index) else rest
    ]

-- `insert` up to the point where it resizes and tries again; the fuel is one round for each slot.
unfoldable pub insert_pass : (ℕ → ℕ) → ℕ → ObjectMap → Entry → Pass
insert_pass hash probe_mask m entry = insert_loop probe_mask entry.key (capacity m) (record {
  map = m;
  entry = entry;
  index = hash entry.key % capacity m;
  probe_len = 0;
  iter_index = none;
})

-- `erase` at an index.
unfoldable pub erase_at : ObjectMap → ℕ → ObjectMap
erase_at m index = record m { slots = set m.slots index none; filled_slots = m.filled_slots - 1 }

-- `erase` of a key.
unfoldable pub erase : (ℕ → ℕ) → ObjectMap → ℕ → ObjectMap × Bool
unfolding find erase_at
erase hash m key = elim (find hash m key) [
  | none ↦ (m, false)
  | some index ↦ (erase_at m index, true)
]

-- `bits::hash` of src/rt/ds/morebits.h, for words of 64 bits.
unfoldable pub hash : ℕ → ℕ
hash p =
    let a = (2 ^ 64 - 1 - p + p * 2 ^ 21) % 2 ^ 64 in
    let b = bit_xor a (a / 2 ^ 24) in
    let c = (b + b * 2 ^ 3 + b * 2 ^ 8) % 2 ^ 64 in
    let d = bit_xor c (c / 2 ^ 14) in
    let e = (d + d * 2 ^ 2 + d * 2 ^ 4) % 2 ^ 64 in
    let f = bit_xor e (e / 2 ^ 28) in (f + f * 2 ^ 31) % 2 ^ 64
