-- ===== src/Rt/ObjectMap/Iterate.antt =====
-- The class `Iterator` of src/rt/ds/hashmap.h. An iterator is its index.
use verona.Prelude.{
  ℕ, zero, suc, ◌+◌, ◌≤◌, ◌<◌, ◌≡◌, refl, sym, ap, subst, ◌∙◌, Bool, true, false, Option, none,
  some, List, [], ◌∷◌, length, set, bit, ◌==◌, ltb, if◌then◌else◌, arith, two_pow,
}
use verona.Rt.ObjectMap.Defs.{Entry, Slots, ObjectMap, slot, capacity, place_entry}
use verona.Rt.ObjectMap.Walk.{occurrences, holds, slot-set_same}
use verona.Rt.ObjectMap.Keeps.{IsMap, slot-lt, swap-IsMap, occurrences-set}

-- `operator++` from `index` on, with a round for each slot.
unfoldable pub step_on : ℕ → Slots → ℕ → ℕ → Option ℕ
step_on zero slots room index = none
step_on (suc fuel) slots room index =
    let rest = step_on fuel slots room (suc index) in
    let here : Option ℕ = elim (slot slots (suc index)) [
      | none ↦ rest
      | some e ↦ some (suc index)
    ] in
    if ltb (suc index) room then here else some (suc index)

unfoldable pub begin : ObjectMap → Option ℕ
unfolding step_on
begin m = elim (slot m.slots 0) [
  | none ↦ step_on (capacity m) m.slots (capacity m) 0
  | some e ↦ some 0
]

abbrev pub visits_first : ℕ → Option (List ℕ) → Option (List ℕ)
visits_first i none = none
visits_first i (some l) = some (i ∷ l)

-- The loop of a client from an iterator on to `end`: the indices that it visits.
unfoldable pub visit : ℕ → ObjectMap → Option ℕ → Option (List ℕ)
unfolding step_on
visit zero m it = none
visit (suc fuel) m none = none
visit (suc fuel) m (some i) =
    let rest = visit fuel m (step_on (capacity m) m.slots (capacity m) i) in
    if i == capacity m then some [] else visits_first i rest

-- `mark` and `unmark` of an iterator; `none` where it is at no entry.
unfoldable pub set_mark : Bool → ObjectMap → ℕ → Option ObjectMap
set_mark marked m i = elim (slot m.slots i) [
  | none ↦ none
  | some e ↦ some (record m { slots = set m.slots i (some (record e { marked = marked })) })
]

unfoldable pub is_marked : ObjectMap → ℕ → Option Bool
is_marked m i = elim (slot m.slots i) [ none ↦ none | some e ↦ some e.marked ]

-- The indices of the slots with an entry, counted from `i`.
unfoldable pub filled_from : Slots → ℕ → List ℕ
filled_from [] i = []
filled_from (none ∷ xs) i = filled_from xs (suc i)
filled_from (some e ∷ xs) i = i ∷ filled_from xs (suc i)

-- Where an iterator is that looks for the next entry from `i` on.
next_from : Slots → ℕ → ℕ
next_from [] i = i
next_from (none ∷ xs) i = next_from xs (suc i)
next_from (some e ∷ xs) i = i

-- The slots from `i` on.
abbrev Rest : Slots → ℕ → Slots → Type 0
Rest slots i xs = (k : ℕ) → slot slots (i + k) ≡ slot xs k

Rest-suc :
    (slots : Slots) (i : ℕ) (x : Option Entry) (xs : Slots)
    → Rest slots i (x ∷ xs)
    → (slot slots i ≡ x) × Rest slots (suc i) xs
Rest-suc slots i x xs h = (
  ap (slot slots) {x = i} {y = i + 0} (omega arith) ∙ h 0,
  λ k. ap (slot slots) {x = suc i + k} {y = i + suc k} (omega arith) ∙ h (suc k),
)

step_on-next :
    (fuel room i : ℕ) (slots xs : Slots)
    → Rest slots (suc i) xs
    → room ≡ suc i + length xs
    → length xs < fuel
    → step_on fuel slots room i ≡ some (next_from xs (suc i))
unfolding step_on next_from
step_on-next zero room i slots xs h e lt = absurd (omega arith)
step_on-next (suc fuel) room i slots [] h e lt =
    let last : ltb (suc i) room ≡ false = ground arith in rw last refl
step_on-next (suc fuel) room i slots (none ∷ xs) h e lt =
    let more : ltb (suc i) room ≡ true = ground arith in
    let (here, later) = Rest-suc slots (suc i) none xs h in
    rw (more, here) (step_on-next fuel room (suc i) slots xs later (omega arith) (omega arith))
step_on-next (suc fuel) room i slots (some f ∷ xs) h e lt =
    let more : ltb (suc i) room ≡ true = ground arith in
    let (here, later) = Rest-suc slots (suc i) (some f) xs h in rw (more, here) refl

visit-filled :
    (fuel i : ℕ) (m : ObjectMap) (xs : Slots)
    → Rest m.slots i xs
    → capacity m ≡ i + length xs
    → length xs < fuel
    → visit fuel m (some (next_from xs i)) ≡ some (filled_from xs i)
unfolding visit next_from filled_from
visit-filled zero i m xs h e lt = absurd (omega arith)
visit-filled (suc fuel) i m [] h e lt =
    let last : (i == capacity m) ≡ true = ground arith in rw last refl
visit-filled (suc fuel) i m (none ∷ xs) h e lt =
    visit-filled (suc fuel) (suc i) m xs (Rest-suc m.slots i none xs h).1 (omega arith)
      (omega arith)
visit-filled (suc fuel) i m (some f ∷ xs) h e lt =
    let more : (i == capacity m) ≡ false = ground arith in
    let later = (Rest-suc m.slots i (some f) xs h).1 in
    let next =
      step_on-next (capacity m) (capacity m) i m.slots xs later (omega arith) (omega arith) in
    rw (more, next)
      (ap (visits_first i) (visit-filled fuel (suc i) m xs later (omega arith) (omega arith)))

begin-next :
    (m : ObjectMap) (xs : Slots)
    → m.slots ≡ xs
    → capacity m ≡ length xs
    → begin m ≡ some (next_from xs 0)
unfolding begin next_from
begin-next m [] e sized = absurd (omega (arith, two_pow m.capacity_shift))
begin-next m (some f ∷ xs) e sized = rw (ap (λ ys. slot ys 0) e, begin) refl
begin-next m (none ∷ xs) e sized =
    rw (ap (λ ys. slot ys 0) e, begin)
      (step_on-next (capacity m) (capacity m) 0 m.slots xs
        (λ k.
          ap (slot m.slots) {x = 1 + k} {y = suc k} (omega arith) ∙ ap (λ ys. slot ys (suc k)) e)
        (omega arith) (omega arith))

-- From `begin` to `end` a client visits the slots with an entry, each once and in order; as many rounds
-- as there are slots, and one more, are enough.
pub visit-begin :
    (hash : ℕ → ℕ) (m : ObjectMap)
    → IsMap hash m
    → visit (suc (capacity m)) m (begin m) ≡ some (filled_from m.slots 0)
visit-begin hash m valid =
    ap (visit (suc (capacity m)) m) (begin-next m m.slots refl (sym valid.sized))
    ∙ visit-filled (suc (capacity m)) 0 m m.slots
        (λ k. ap (slot m.slots) {x = 0 + k} {y = k} (omega arith)) (omega (arith, valid.sized))
        (omega (arith, valid.sized))

place-same :
    (e : Entry) (i : ℕ) (m : ObjectMap)
    → e.probe ≤ m.longest_probe
    → place_entry e i e.probe m ≡ record m { slots = set m.slots i (some e) }
unfolding place_entry
place-same e i m le =
    let short : ltb m.longest_probe e.probe ≡ false = ground arith in rw short refl

-- A mark leaves the invariant of the map and its entries.
pub set_mark-IsMap :
    (hash : ℕ → ℕ) (P : ℕ → ℕ → Bool) (marked : Bool) (m : ObjectMap) (i : ℕ) (e : Entry)
    → IsMap hash m
    → slot m.slots i ≡ some e
    → (m' : ObjectMap) × (set_mark marked m i ≡ some m')
      × IsMap hash m'
      × (m'.filled_slots ≡ m.filled_slots)
      × (occurrences P m'.slots ≡ occurrences P m.slots)
      × (is_marked m' i ≡ some marked)
unfolding set_mark is_marked
set_mark-IsMap hash P marked m i e valid there =
    let low = slot-lt m.slots i there in
    let e' : Entry = record e { marked = marked } in
    let m' : ObjectMap = record m { slots = set m.slots i (some e') } in
    let sum = occurrences-set P m.slots i (some e') low in
    (
      m',
      rw (there, set_mark) refl,
      subst (IsMap hash) (place-same e' i m (valid.bounded i e there)) (
          swap-IsMap hash m valid e' i e.probe (omega (arith, low, valid.sized))
            (valid.placed i e there) e there),
      refl,
      omega (arith, sum, ap (λ s. bit (holds P s)) there),
      rw (slot-set_same m.slots i (some e') low, is_marked) refl,
    )
