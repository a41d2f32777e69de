-- ===== src/Rt/ObjectMap/Retry.antt =====
-- What `insert` of src/rt/ds/hashmap.h does after a pass over the slots.
use verona.Prelude.{
  ℕ, suc, ◌+◌, ◌≤◌, ◌<◌, ◌≡◌, refl, ap, subst, ◌∙◌, inl, inr, Bool, true, false, not, Option, some,
  bit, ◌==◌, if◌then◌else◌, arith, Bool-cases, ==_self,
}
use verona.Rt.ObjectMap.Defs.{
  Entry, ObjectMap, slot, capacity, find, holds_key, Pass, updated, added, overflow, out_of_fuel,
  insert_pass,
}
use verona.Rt.ObjectMap.Walk.{occurrences}
use verona.Rt.ObjectMap.Keeps.{IsMap, Passes}
use verona.Rt.ObjectMap.Insert.{insert_pass-Passes, find_added}
use verona.Rt.ObjectMap.Resize.{resize, index_in, insert}
use verona.Rt.ObjectMap.Index.{IndexIs, insert_pass-IndexIs}
use verona.Rt.ObjectMap.Home.{
  ShiftIs, insert_pass-ShiftIs, Apart, AtHome, strange, insert_pass-AtHome,
}
use verona.Rt.ObjectMap.Rehash.{
  has, every, counts, IsFit, Adds, Ends, IsFit-Fresh, tidy-IsEnough, resize-Holds,
}

true_of_bit : (b : Bool) → bit (not b) ≡ 0 → b ≡ true
true_of_bit true h = refl
true_of_bit false h = absurd (omega arith)

-- The index that `insert` returns after it has resized.
abbrev index_after : (ℕ → ℕ) → ℕ → ObjectMap → ℕ → ℕ
index_after hash key m i =
    if holds_key key (slot m.slots i) then i else index_in m (find hash m key)

holds_key-index_after :
    (hash : ℕ → ℕ) (key : ℕ) (m : ObjectMap) (i j : ℕ)
    → find hash m key ≡ some j
    → holds_key key (slot m.slots j) ≡ true
    → holds_key key (slot m.slots (index_after hash key m i)) ≡ true
holds_key-index_after hash key m i j found there =
    elim (Bool-cases (holds_key key (slot m.slots i))) [
      | inl here ↦ rw here here
      | inr away ↦ rw (away, found) there
    ]

-- The map before the pass: a full one is resized.
abbrev pub room_for : (ℕ → ℕ) → ℕ → ℕ → ObjectMap → Option ObjectMap
room_for hash probe_mask fuel m =
    if m.filled_slots == capacity m then resize (insert hash probe_mask fuel) m else some m

module _ (hash : ℕ → ℕ) (probe_mask fuel : ℕ) (m : ObjectMap) (entry : Entry) {m₀ m₁ : ObjectMap}
    (room : room_for hash probe_mask fuel m ≡ some m₀) where
  insert_added :
      {i : ℕ}
      → insert_pass hash probe_mask m₀ entry ≡ added m₁ i
      → insert hash probe_mask (suc fuel) m entry ≡ some (m₁, true, i)
  unfolding insert
  insert_added run = rw (insert, room, run) refl

  insert_overflow :
      {left : Entry} {m₂ m₃ : ObjectMap} {b : Bool} {i : ℕ}
      → insert_pass hash probe_mask m₀ entry ≡ overflow m₁ left
      → resize (insert hash probe_mask fuel) m₁ ≡ some m₂
      → insert hash probe_mask fuel m₂ left ≡ some (m₃, b, i)
      → insert hash probe_mask (suc fuel) m entry ≡ some (m₃, true, index_after hash entry.key m₃ i)
  unfolding insert
  insert_overflow run resized rest = rw (insert, room, run, resized, rest) refl

-- How a pass of `insert` is gone on from.
module _ (hash : ℕ → ℕ) (known : ℕ → Bool) (bits : ℕ) (apart : Apart hash known bits)
    (probe_mask fuel : ℕ) (ends : Ends hash known bits probe_mask fuel) (m m₀ : ObjectMap)
    (entry : Entry) (room : room_for hash probe_mask fuel m ≡ some m₀)
    (fit : IsFit hash known bits m₀ entry) (space : m₀.filled_slots < capacity m₀) where
  abbrev pub Outcome : Type 0
  Outcome =
      (m' : ObjectMap) × (i : ℕ) × (insert hash probe_mask (suc fuel) m entry ≡ some (m', true, i))
      × Adds hash known bits m₀ entry m' i

  abbrev ComesTo : (ℕ → ℕ → Bool) → Pass → Type 0
  ComesTo P p = Passes hash P (occurrences P m₀.slots + counts P entry) m₀.filled_slots p

  passes : (P : ℕ → ℕ → Bool) → ComesTo P (insert_pass hash probe_mask m₀ entry)
  passes =
      insert_pass-Passes hash probe_mask m₀ entry fit.valid space
        (IsFit-Fresh hash known bits m₀ entry fit)

  home_pass :
      bits ≤ m₀.capacity_shift
      → AtHome m₀
      → (m₁ : ObjectMap) × (i : ℕ) × (insert_pass hash probe_mask m₀ entry ≡ added m₁ i) × AtHome m₁
  home_pass wide settled =
      insert_pass-AtHome hash known bits apart probe_mask m₀ entry fit.valid wide settled
        (IsFit-Fresh hash known bits m₀ entry fit) (omega (arith, fit.familiar))
        (true_of_bit (known entry.key) (omega (arith, fit.familiar)))

  indexed : IndexIs entry.key (insert_pass hash probe_mask m₀ entry)
  indexed =
      insert_pass-IndexIs hash probe_mask m₀ entry fit.valid space
        (IsFit-Fresh hash known bits m₀ entry fit)

  -- The map at the end has the key, so that `find` puts the index right.
  index_right :
      (m₃ : ObjectMap) (i : ℕ)
      → IsMap hash m₃
      → ((P : ℕ → ℕ → Bool) → occurrences P m₃.slots ≡ occurrences P m₀.slots + counts P entry)
      → (entry.key == 0) ≡ false
      → holds_key entry.key (slot m₃.slots (index_after hash entry.key m₃ i)) ≡ true
  index_right m₃ i valid sum nonzero =
      let (j, k, found, at_j, same, value) =
        find_added hash m₀ m₃ entry valid sum (IsFit-Fresh hash known bits m₀ entry fit) nonzero in
      holds_key-index_after hash entry.key m₃ i j found
        (ap (holds_key entry.key) at_j ∙ ap (λ n. n == entry.key) same ∙ ==_self entry.key)

  -- An entry that is added to a map that tells the keys apart is added to its own slot.
  added-AtHome :
      {m₁ : ObjectMap} {i : ℕ}
      → insert_pass hash probe_mask m₀ entry ≡ added m₁ i
      → bits ≤ m₀.capacity_shift
      → AtHome m₀
      → AtHome m₁
  added-AtHome {m₁ = m₁} run wide settled =
      let (m₂, j, run₂, settled₂) = home_pass wide settled in
      let same : m₂ ≡ m₁ = cc (run, run₂) in subst AtHome same settled₂

  pass_added :
      (m₁ : ObjectMap) (i : ℕ) → insert_pass hash probe_mask m₀ entry ≡ added m₁ i → Outcome
  pass_added m₁ i run =
      let ok = λ (P : ℕ → ℕ → Bool). subst (ComesTo P) run (passes P) in
      let same : m₁.capacity_shift ≡ m₀.capacity_shift =
        subst (ShiftIs m₀.capacity_shift) run (insert_pass-ShiftIs hash probe_mask m₀ entry) in
      (
        m₁,
        i,
        insert_added hash probe_mask fuel m entry room run,
        record {
          valid = (ok every).0;
          tidy = λ tidy wide.
              let wide₀ : bits ≤ m₀.capacity_shift = omega arith in
              added-AtHome run wide₀ (tidy wide₀);
          grows = omega arith;
          filled = (ok every).1;
          sum = λ P. (ok P).2;
          index = λ _. subst (IndexIs entry.key) run indexed;
        },
      )

  pass_overflow :
      (m₁ : ObjectMap) (left : Entry)
      → 0 < fuel
      → bits < suc m₀.capacity_shift + fuel
      → insert_pass hash probe_mask m₀ entry ≡ overflow m₁ left
      → Outcome
  pass_overflow m₁ left pos enough run =
      let ok = λ (P : ℕ → ℕ → Bool). subst (ComesTo P) run (passes P) in
      let same : m₁.capacity_shift ≡ m₀.capacity_shift =
        subst (ShiftIs m₀.capacity_shift) run (insert_pass-ShiftIs hash probe_mask m₀ entry) in
      let (m₂, resized, held, space₂) =
        resize-Holds hash known bits probe_mask fuel ends m₁ pos (omega arith) (ok every).0
          (λ key. omega (arith, fit.distinct key, (ok (has key)).2))
          (omega (arith, fit.familiar, (ok (strange known)).2)) in
      let fit₂ : IsFit hash known bits m₂ left = record {
        valid = held.valid;
        distinct = λ key. omega (arith, fit.distinct key, (ok (has key)).2, held.sum (has key));
        familiar = omega (arith, fit.familiar, (ok (strange known)).2, held.sum (strange known));
      } in
      let (m₃, i, rest, new) = ends m₂ left fit₂ (
        tidy-IsEnough hash known bits fuel (suc m₀.capacity_shift) m₂ pos enough
          (omega (arith, held.grows)) space₂ held.tidy) in
      let all_sum : (P : ℕ → ℕ → Bool)
          → occurrences P m₃.slots ≡ occurrences P m₀.slots + counts P entry =
        λ P. omega (arith, new.sum P, held.sum P, (ok P).2) in
      (
        m₃,
        index_after hash entry.key m₃ i,
        insert_overflow hash probe_mask fuel m entry room run resized rest,
        record {
          valid = new.valid;
          tidy = λ _. new.tidy held.tidy;
          grows = omega (arith, held.grows, new.grows);
          filled = omega (arith, new.filled, held.count, (ok every).1);
          sum = all_sum;
          index = index_right m₃ i new.valid all_sum;
        },
      )

  pub pass_home : bits ≤ m₀.capacity_shift → AtHome m₀ → Outcome
  pass_home wide settled = let (m₁, i, run, home) = home_pass wide settled in pass_added m₁ i run

  pub pass_on : 0 < fuel → bits < suc m₀.capacity_shift + fuel → Outcome
  pass_on pos enough = by_pass (insert_pass hash probe_mask m₀ entry) refl
    where
      by_pass : (p : Pass) → insert_pass hash probe_mask m₀ entry ≡ p → Outcome
      by_pass (added m₁ i) run = pass_added m₁ i run
      by_pass (overflow m₁ left) run = pass_overflow m₁ left pos enough run
      by_pass (updated m₁ i) run = absurd (subst (ComesTo every) run (passes every))
      by_pass out_of_fuel run = absurd (subst (ComesTo every) run (passes every))
