-- ===== src/Rt/ObjectMap/Walk.antt =====
-- Ways over the slots of a map: where a number of steps leads, and an empty slot ahead.
use verona.Prelude.{
  ℕ, zero, suc, ◌+◌, ◌-◌, ◌≤◌, ◌<◌, ◌≡◌, ◌≢◌, refl, sym, ap, subst, ◌∙◌, inl, inr, ◌⊎◌, Bool, true,
  false, Option, none, some, [], ◌∷◌, set, length, count, ◌==◌, arith, Bool-cases, Option-cases,
}
use verona.Rt.ObjectMap.Defs.{Entry, Slots, slot, advance, holds_key, find_loop}

abbrev pub walk : ℕ → ℕ → ℕ → ℕ
walk room zero i = i
walk room (suc p) i = walk room p (advance room i)

pub walk-advance : (room p i : ℕ) → walk room p (advance room i) ≡ advance room (walk room p i)
walk-advance room zero i = refl
walk-advance room (suc p) i = walk-advance room p (advance room i)

walk-walk : (room p q i : ℕ) → walk room (p + q) i ≡ walk room q (walk room p i)
walk-walk room zero q i = ap (λ k. walk room k i) {x = 0 + q} {y = q} (omega arith)
walk-walk room (suc p) q i =
    ap (λ k. walk room k i) {x = suc p + q} {y = suc (p + q)} (omega arith)
    ∙ walk-walk room p q (advance room i)

walk_straight : (room d i : ℕ) → i + d < room → walk room d i ≡ i + d
walk_straight room zero i h = omega arith
walk_straight room (suc d) i h =
    let next : advance room i ≡ suc i = ground arith in
    ap (walk room d) next ∙ walk_straight room d (suc i) (omega arith) ∙ omega arith

pub advance-lt : (room i : ℕ) → i < room → advance room i < room
advance-lt room i h = ground arith

-- Every slot is fewer steps away than there are slots.
pub way_to : (room i j : ℕ) → i < room → j < room → (d : ℕ) × (d < room) × (walk room d i ≡ j)
way_to room i j hi hj = elim (le_or_gt i j) [
  | inl le ↦ (j - i, omega arith, walk_straight room (j - i) i (omega arith) ∙ omega arith)
  | inr gt ↦
      let last = walk_straight room (room - suc i) i (omega arith) in
      let turn : advance room (i + (room - suc i)) ≡ 0 = ground arith in
      let back_to_0 = sym (walk-advance room (room - suc i) i) in
      (
        (room - suc i) + suc j,
        omega arith,
        walk-walk room (room - suc i) (suc j) i
            ∙ ap (walk room (suc j)) last
            ∙ ap (walk room j) turn
            ∙ walk_straight room j 0 (omega arith)
            ∙ omega arith,
      )
]
  where
    le_or_gt : (a b : ℕ) → a ≤ b ⊎ b < a
    le_or_gt a b = ground arith

pub slot-set_same :
    (xs : Slots) (i : ℕ) (s : Option Entry) → i < length xs → slot (set xs i s) i ≡ s
slot-set_same [] i s h = absurd (omega arith)
slot-set_same (x ∷ xs) zero s h = refl
slot-set_same (x ∷ xs) (suc i) s h = slot-set_same xs i s (omega arith)

pub slot-set_other :
    (xs : Slots) (i j : ℕ) (s : Option Entry) → j ≢ i → slot (set xs i s) j ≡ slot xs j
slot-set_other [] i j s h = refl
slot-set_other (x ∷ xs) zero zero s h = absurd (h refl)
slot-set_other (x ∷ xs) zero (suc j) s h = refl
slot-set_other (x ∷ xs) (suc i) zero s h = refl
slot-set_other (x ∷ xs) (suc i) (suc j) s h = slot-set_other xs i j s (λ e. h (ap suc e))

-- `d` steps lead over entries of other keys to an empty slot.
abbrev pub Clear : ℕ → ℕ → Slots → ℕ → ℕ → Type 0
Clear room key xs zero i = slot xs i ≡ none
Clear room key xs (suc d) i =
    ((k : Entry) × (slot xs i ≡ some k) × ((k.key == key) ≡ false))
    × Clear room key xs d (advance room i)

module _ (room key : ℕ) (xs : Slots) where
  Clear-unique : (d e i : ℕ) → Clear room key xs d i → Clear room key xs e i → d ≡ e
  Clear-unique zero zero i h k = refl
  Clear-unique zero (suc e) i h ((entry, same, other), k) = cc
  Clear-unique (suc d) zero i ((entry, same, other), h) k = cc
  Clear-unique (suc d) (suc e) i ((entry, same, other), h) (next, k) =
      ap suc (Clear-unique d e (advance room i) h k)

  apart : (d e i j : ℕ) → Clear room key xs d j → Clear room key xs e i → d < e → j ≢ i
  apart d e i j h k low same =
      absurd (omega (arith, Clear-unique d e i (subst (Clear room key xs d) same h) k))

  -- A slot that is written does not lie ahead of a way that begins behind it.
  pub Clear-set :
      (d e i j : ℕ) (s : Option Entry)
      → Clear room key xs d j
      → Clear room key xs e i
      → d < e
      → Clear room key (set xs i s) d j
  Clear-set zero e i j s h k low = slot-set_other xs i j s (apart zero e i j h k low) ∙ h
  Clear-set (suc d) e i j s ((entry, same, other), h) k low =
      let distinct = apart (suc d) e i j ((entry, same, other), h) k low in
      (
        (entry, slot-set_other xs i j s distinct ∙ same, other),
        Clear-set d e i (advance room j) s h k (omega arith),
      )

  pub way_to_empty :
      (d i j : ℕ)
      → ((k : Entry) (i : ℕ) → slot xs i ≡ some k → (k.key == key) ≡ false)
      → walk room d i ≡ j
      → slot xs j ≡ none
      → (e : ℕ) × (e ≤ d) × Clear room key xs e i
  way_to_empty zero i j fresh w h = (0, omega arith, ap (slot xs) w ∙ h)
  way_to_empty (suc d) i j fresh w h = elim (Option-cases (slot xs i)) [
    | inl e ↦ (0, omega arith, e)
    | inr (k, e) ↦
        let (n, le, clear) = way_to_empty d (advance room i) j fresh w h in
        (suc n, omega arith, ((k, e, fresh k i e), clear))
  ]

-- A test of entries that does not look at where they are.
abbrev pub holds : (ℕ → ℕ → Bool) → Option Entry → Bool
holds P none = false
holds P (some e) = P e.key e.value

abbrev pub occurrences : (ℕ → ℕ → Bool) → Slots → ℕ
occurrences P xs = count (holds P) xs

pub some_empty :
    (xs : Slots)
    → occurrences (λ k v. true) xs < length xs
    → (j : ℕ) × (j < length xs) × (slot xs j ≡ none)
some_empty [] h = absurd (omega arith)
some_empty (none ∷ xs) h = (0, omega arith, refl)
some_empty (some e ∷ xs) h =
    let (j, low, empty) = some_empty xs (omega arith) in (suc j, omega arith, empty)

-- The loop of `find` stops no later than at a slot with the key.
pub find_loop-hits :
    (room key : ℕ) (xs : Slots) (rounds p i : ℕ)
    → p < rounds
    → holds_key key (slot xs (walk room p i)) ≡ true
    → (j : ℕ) × (find_loop rounds xs room i key ≡ some j) × (holds_key key (slot xs j) ≡ true)
unfolding find_loop
find_loop-hits room key xs zero p i low h = absurd (omega arith)
find_loop-hits room key xs (suc rounds) zero i low h = (i, rw h refl, h)
find_loop-hits room key xs (suc rounds) (suc p) i low h =
    elim (Bool-cases (holds_key key (slot xs i))) [
      | inl e ↦ (i, rw e refl, e)
      | inr e ↦
          let (j, run, hit) =
            find_loop-hits room key xs rounds p (advance room i) (omega arith) h in
          (j, rw e run, hit)
    ]
