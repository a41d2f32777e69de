-- ===== src/Rt/ObjectMap/Insert.antt =====
-- A whole pass of `insert` on a map of src/rt/ds/hashmap.h, `find` behind it, and `erase`.
use native.Mathlib.Nat
use verona.Prelude.{
  ℕ, zero, suc, ◌+◌, ◌-◌, ◌%◌, ◌<◌, ◌≡◌, refl, sym, ap, subst, ◌∙◌, inl, inr, Bool, true, false,
  not, ◌&&◌, Option, none, some, [], ◌∷◌, set, length, length-set, bit, ◌==◌, ltb, arith,
  Bool-cases, eq_of_==, ne_of_==, ==_self, some-injective,
}
use verona.Rt.ObjectMap.Defs.{
  Entry, Slots, ObjectMap, slot, capacity, holds_key, find, Carry, updated, added, insert_loop,
  insert_pass, erase_at,
}
use verona.Rt.ObjectMap.Walk.{
  way_to, slot-set_same, slot-set_other, way_to_empty, some_empty, find_loop-hits, holds,
  occurrences,
}
use verona.Rt.ObjectMap.Keeps.{
  home, IsMap, IsCarry, Passes, insert_loop-Passes, slot-lt, occurrences-set,
}

-- No slot has the key.
abbrev pub Fresh : ℕ → ObjectMap → Type 0
Fresh key m = (k : Entry) (i : ℕ) → slot m.slots i ≡ some k → (k.key == key) ≡ false

module _ (hash : ℕ → ℕ) (probe_mask : ℕ) (m : ObjectMap) (entry : Entry) (valid : IsMap hash m)
    (space : m.filled_slots < capacity m) (fresh : Fresh entry.key m) where
  pub start-IsCarry :
      (d : ℕ) × (d < capacity m)
      × IsCarry hash entry.key d (record {
        map = m;
        entry = entry;
        index = hash entry.key % capacity m;
        probe_len = 0;
        iter_index = none;
      })
  start-IsCarry =
      let inside = Nat.mod-lt (hash entry.key) {m = capacity m} (omega arith) in
      let (j, low, empty) = some_empty m.slots (omega (arith, valid.filled, valid.sized)) in
      let (d, few, way) = way_to (capacity m) _ j inside (omega (arith, valid.sized)) in
      let (n, le, clear) = way_to_empty (capacity m) entry.key m.slots d _ j fresh way empty in
      (n, omega arith, record { valid = valid; inside = inside; there = refl; clear = clear })

  pub insert_pass-Passes :
      (P : ℕ → ℕ → Bool)
      → Passes hash P
          (occurrences P m.slots + bit (P entry.key entry.value))
          m.filled_slots
          (insert_pass hash probe_mask m entry)
  unfolding insert_pass
  insert_pass-Passes P =
      let (d, low, start) = start-IsCarry in
      insert_loop-Passes hash P probe_mask entry.key (capacity m) d _ low start

pub occurrences-pos :
    (P : ℕ → ℕ → Bool) (xs : Slots)
    → 0 < occurrences P xs
    → (i : ℕ) × (e : Entry) × (slot xs i ≡ some e) × (P e.key e.value ≡ true)
occurrences-pos P [] h = absurd (omega arith)
occurrences-pos P (none ∷ xs) h =
    let (i, e, at_i, passes) = occurrences-pos P xs (omega arith) in (suc i, e, at_i, passes)
occurrences-pos P (some e ∷ xs) h = elim (Bool-cases (P e.key e.value)) [
  | inl passes ↦ (0, e, refl, passes)
  | inr fails ↦
      let (i, f, at_i, passes) = occurrences-pos P xs (omega (arith, ap bit fails)) in
      (suc i, f, at_i, passes)
]

pub occurrences-none :
    (P : ℕ → ℕ → Bool) (xs : Slots)
    → ((i : ℕ) (e : Entry) → slot xs i ≡ some e → P e.key e.value ≡ false)
    → occurrences P xs ≡ 0
occurrences-none P [] h = refl
occurrences-none P (none ∷ xs) h = omega (arith, occurrences-none P xs (λ i. h (suc i)))
occurrences-none P (some e ∷ xs) h =
    omega (arith, ap bit (h 0 e refl), occurrences-none P xs (λ i. h (suc i)))

pub occurrences-fails :
    (P : ℕ → ℕ → Bool) (xs : Slots) (i : ℕ) (e : Entry)
    → occurrences P xs ≡ 0
    → slot xs i ≡ some e
    → P e.key e.value ≡ false
occurrences-fails P [] i e h at_i = cc
occurrences-fails P (none ∷ xs) zero e h at_i = cc
occurrences-fails P (some f ∷ xs) zero e h at_i =
    subst (λ g. P g.key g.value ≡ false) (some-injective _ _ at_i) (ground arith)
occurrences-fails P (s ∷ xs) (suc i) e h at_i = occurrences-fails P xs i e (omega arith) at_i

holds_key-some :
    (key : ℕ) (s : Option Entry)
    → holds_key key s ≡ true
    → (k : Entry) × (s ≡ some k) × (k.key ≡ key)
holds_key-some key none h = cc
holds_key-some key (some k) h = (k, refl, eq_of_== _ _ h)

-- In a map that keeps its invariant, `find` with the key of an entry ends at an entry with that key.
pub find-hits :
    (hash : ℕ → ℕ) (m : ObjectMap) (i : ℕ) (e : Entry)
    → IsMap hash m
    → slot m.slots i ≡ some e
    → (e.key == 0) ≡ false
    → (j : ℕ) × (k : Entry) × (find hash m e.key ≡ some j)
      × (slot m.slots j ≡ some k)
      × (k.key ≡ e.key)
unfolding find
find-hits hash m i e valid at_i nonzero =
    let room = capacity m in
    let way = valid.placed i e at_i in
    let here : holds_key e.key (slot m.slots i) ≡ true =
      ap (holds_key e.key) at_i ∙ ==_self e.key in
    let hit = subst (λ k. holds_key e.key (slot m.slots k) ≡ true) (sym way) here in
    let near = valid.bounded i e at_i in
    let (j, run, found) =
      find_loop-hits room e.key m.slots (suc m.longest_probe) e.probe (home hash room e.key)
        (omega arith) hit in
    let (k, at_j, same) = holds_key-some e.key (slot m.slots j) found in
    (j, k, rw nonzero run, at_j, same)

value_of : (k l v w : ℕ) → k ≡ l → ((k == l) && not (v == w)) ≡ false → v ≡ w
value_of k l v w h fails = ground arith

-- Where the entries of a map are those of another and a new one, with a key that the other lacks and
-- that is not null, `find` with the key ends at a slot with the key and the value.
pub find_added :
    (hash : ℕ → ℕ) (m m' : ObjectMap) (entry : Entry)
    → IsMap hash m'
    → ((P : ℕ → ℕ → Bool)
        → occurrences P m'.slots ≡ occurrences P m.slots + bit (P entry.key entry.value))
    → Fresh entry.key m
    → (entry.key == 0) ≡ false
    → (j : ℕ) × (k : Entry) × (find hash m' entry.key ≡ some j)
      × (slot m'.slots j ≡ some k)
      × (k.key ≡ entry.key)
      × (k.value ≡ entry.value)
find_added hash m m' entry valid sum fresh nonzero =
    let has_key : ℕ → ℕ → Bool = λ k v. k == entry.key in
    let differs : ℕ → ℕ → Bool = λ k v. (k == entry.key) && not (v == entry.value) in
    let new_key : bit (entry.key == entry.key) ≡ 1 = ap bit (==_self entry.key) in
    let (i, e, at_i, same) = occurrences-pos has_key m'.slots (omega (arith, sum has_key)) in
    let key_e = eq_of_== e.key entry.key same in
    let (j, k, found, at_j, key_k) =
      find-hits hash m' i e valid at_i (ap (λ n. n == 0) key_e ∙ nonzero) in
    let none_before =
      occurrences-none differs m.slots
        (λ i f at_f. ap (λ b. b && not (f.value == entry.value)) (fresh f i at_f)) in
    let none_new : bit (differs entry.key entry.value) ≡ 0 = ground arith in
    let fails = occurrences-fails differs m'.slots j k (omega (arith, sum differs)) at_j in
    (
      j,
      k,
      subst (λ n. find hash m' n ≡ some j) key_e found,
      at_j,
      key_k ∙ key_e,
      value_of _ _ _ _ (key_k ∙ key_e) fails,
    )

module _ (hash : ℕ → ℕ) (probe_mask : ℕ) (m : ObjectMap) (entry : Entry) (valid : IsMap hash m)
    (space : m.filled_slots < capacity m) (fresh : Fresh entry.key m)
    (nonzero : (entry.key == 0) ≡ false) {m' : ObjectMap} {at_new : ℕ}
    (run : insert_pass hash probe_mask m entry ≡ added m' at_new) where
  passes :
      (P : ℕ → ℕ → Bool)
      → IsMap hash m'
        × (m'.filled_slots ≡ suc m.filled_slots)
        × (occurrences P m'.slots ≡ occurrences P m.slots + bit (P entry.key entry.value))
  passes P =
      subst (Passes hash P (occurrences P m.slots + bit (P entry.key entry.value)) m.filled_slots)
        run (insert_pass-Passes hash probe_mask m entry valid space fresh P)

  -- On a map with an empty slot and without the key of the entry, which is not null: where a pass of
  -- `insert` adds the entry, `find` with its key then ends at a slot with its key and value.
  pub insert_pass-find :
      (j : ℕ) × (k : Entry) × (find hash m' entry.key ≡ some j)
      × (slot m'.slots j ≡ some k)
      × (k.key ≡ entry.key)
      × (k.value ≡ entry.value)
  insert_pass-find =
      find_added hash m m' entry (passes (λ k v. true)).0 (λ P. (passes P).2) fresh nonzero

module _ (hash : ℕ → ℕ) (m : ObjectMap) (valid : IsMap hash m) where
  -- Where an entry stands in its own slot, a pass of `insert` with the same key and another value leaves
  -- the map as it is: the value is not updated.
  pub insert_pass-stale :
      (probe_mask : ℕ) (entry k : Entry)
      → slot m.slots (hash entry.key % capacity m) ≡ some k
      → k.key ≡ entry.key
      → insert_pass hash probe_mask m entry ≡ updated m (hash entry.key % capacity m)
  unfolding insert_pass insert_loop
  insert_pass-stale probe_mask entry k at_home same =
      let low = slot-lt m.slots _ at_home in
      let n = capacity m - 1 in
      let more : capacity m ≡ suc n = omega (arith, low, valid.sized) in
      let start : Carry = record {
        map = m;
        entry = entry;
        index = hash entry.key % capacity m;
        probe_len = 0;
        iter_index = none;
      } in
      let short : ltb probe_mask 0 ≡ false = ground arith in
      let equal : (k.key == entry.key) ≡ true = ap (λ l. l == entry.key) same ∙ ==_self entry.key in
      ap (λ f. insert_loop probe_mask entry.key f start) more ∙ rw (short, at_home, equal) refl

  erased :
      (i j : ℕ) (e : Entry)
      → i < length m.slots
      → slot (set m.slots i none) j ≡ some e
      → slot m.slots j ≡ some e
  erased i j e low h = elim (Bool-cases (j == i)) [
    | inl same ↦ absurd (
        cc
          (slot-set_same m.slots i none low, ap (slot (set m.slots i none)) (eq_of_== j i same), h))
    | inr apart ↦ sym (slot-set_other m.slots i j none (ne_of_== j i apart)) ∙ h
  ]

  -- To erase an entry leaves the other entries and the invariant of the map.
  pub erase_at-IsMap :
      (i : ℕ) (e : Entry) (P : ℕ → ℕ → Bool)
      → slot m.slots i ≡ some e
      → IsMap hash (erase_at m i)
        × (occurrences P (erase_at m i).slots + bit (P e.key e.value) ≡ occurrences P m.slots)
  unfolding erase_at
  erase_at-IsMap i e P at_i =
      let low = slot-lt m.slots i at_i in
      let sum = occurrences-set P m.slots i none low in
      let all = occurrences-set (λ k v. true) m.slots i none low in
      (
        record {
          sized = length-set m.slots i none ∙ valid.sized;
          filled = omega (arith, all, ap (λ s. bit (holds (λ k v. true) s)) at_i, valid.filled);
          placed = λ j f h. valid.placed j f (erased i j f low h);
          bounded = λ j f h. valid.bounded j f (erased i j f low h);
        },
        omega (arith, sum, ap (λ s. bit (holds P s)) at_i),
      )
