-- ===== src/Rt/ObjectMap/Home.antt =====
-- Maps of src/rt/ds/hashmap.h whose entries stand in their own slots, since the hashes of the keys are
-- apart.
use native.Mathlib.Nat
use Prim.Native.Nat.{◌∣◌}
use verona.Prelude.{
  ℕ, zero, suc, ◌+◌, ◌*◌, ◌-◌, ◌%◌, ◌^◌, ◌≤◌, ◌<◌, ◌≡◌, refl, sym, ap, subst, ◌∙◌, inl, inr, Bool,
  true, false, not, none, some, ◌==◌, ltb, arith, Bool-cases, Option-cases, ==_self, two_pow,
}
use verona.Rt.ObjectMap.Defs.{
  Entry, ObjectMap, slot, capacity, place_entry, Carry, Pass, updated, added, overflow, out_of_fuel,
  carry_on, insert_loop, insert_pass,
}
use verona.Rt.ObjectMap.Walk.{walk, occurrences}
use verona.Rt.ObjectMap.Keeps.{home, IsMap, slot_after}
use verona.Rt.ObjectMap.Insert.{Fresh, occurrences-fails}

-- How many slots a map has does not change in a pass of `insert`.
abbrev pub ShiftIs : ℕ → Pass → Type 0
ShiftIs n (updated m i) = m.capacity_shift ≡ n
ShiftIs n (added m i) = m.capacity_shift ≡ n
ShiftIs n (overflow m e) = m.capacity_shift ≡ n
ShiftIs n out_of_fuel = Unit

carry_on_shift : (k : Entry) (c : Carry) → (carry_on k c).map.capacity_shift ≡ c.map.capacity_shift
unfolding carry_on place_entry
carry_on_shift k c = elim (Bool-cases (ltb k.probe c.probe_len)) [
  | inl swaps ↦ rw swaps refl
  | inr stays ↦ rw stays refl
]

insert_loop-ShiftIs :
    (probe_mask key fuel n : ℕ) (c : Carry)
    → c.map.capacity_shift ≡ n
    → ShiftIs n (insert_loop probe_mask key fuel c)
unfolding insert_loop place_entry
insert_loop-ShiftIs probe_mask key zero n c e = tt
insert_loop-ShiftIs probe_mask key (suc fuel) n c e =
    elim (Bool-cases (ltb probe_mask c.probe_len)) [
      | inl long ↦ rw long e
      | inr short ↦ elim (Option-cases (slot c.map.slots c.index)) [
        | inl empty ↦ rw (short, empty) e
        | inr (k, there) ↦
            let rest =
              insert_loop-ShiftIs probe_mask key fuel n (carry_on k c) (carry_on_shift k c ∙ e) in
            elim (Bool-cases (k.key == key)) [
              | inl same ↦ rw (short, there, same) e
              | inr other ↦ rw (short, there, other) rest
            ]
      ]
    ]

pub insert_pass-ShiftIs :
    (hash : ℕ → ℕ) (probe_mask : ℕ) (m : ObjectMap) (entry : Entry)
    → ShiftIs m.capacity_shift (insert_pass hash probe_mask m entry)
unfolding insert_pass
insert_pass-ShiftIs hash probe_mask m entry =
    insert_loop-ShiftIs probe_mask entry.key (capacity m) m.capacity_shift _ refl

pow_dvd : (k d : ℕ) → 2 ^ k ∣ 2 ^ (k + d)
pow_dvd k zero =
    let e : k ≡ k + 0 = omega arith in subst (λ n. 2 ^ k ∣ 2 ^ n) e (Nat.dvd_refl (2 ^ k))
pow_dvd k (suc d) =
    let e : 2 ^ (k + d) * 2 ≡ 2 ^ (k + suc d) =
      sym (Nat.pow-suc 2 (k + d))
      ∙ ap (λ n. 2 ^ n) {x = suc (k + d)} {y = k + suc d} (omega arith) in
    subst (λ n. 2 ^ k ∣ n) e (Nat.dvd-mul_right_of_dvd (2 ^ k) (pow_dvd k d) 2)

mod_pow : (a k s : ℕ) → k ≤ s → a % 2 ^ s % 2 ^ k ≡ a % 2 ^ k
mod_pow a k s le =
    let e : k + (s - k) ≡ s = omega arith in
    Nat.mod-mod_of_dvd (2 ^ k) a (subst (λ n. 2 ^ k ∣ 2 ^ n) e (pow_dvd k (s - k)))

-- The keys of `known` are told apart by `bits` bits of their hashes.
abbrev pub Apart : (ℕ → ℕ) → (ℕ → Bool) → ℕ → Type 0
Apart hash known bits =
    (k l : ℕ) → known k ≡ true → known l ≡ true → hash k % 2 ^ bits ≡ hash l % 2 ^ bits → k ≡ l

true_of_not : (b : Bool) → not b ≡ false → b ≡ true
true_of_not true h = refl
true_of_not false h = cc

-- Every entry stands in its own slot.
abbrev pub AtHome : ObjectMap → Type 0
AtHome m = (i : ℕ) (e : Entry) → slot m.slots i ≡ some e → e.probe ≡ 0

-- The test of the keys that are not known.
abbrev pub strange : (ℕ → Bool) → ℕ → ℕ → Bool
strange known key value = not (known key)

module _ (hash : ℕ → ℕ) (known : ℕ → Bool) (bits : ℕ) (apart : Apart hash known bits)
    (probe_mask : ℕ) (m : ObjectMap) (entry : Entry) (valid : IsMap hash m)
    (wide : bits ≤ m.capacity_shift) (settled : AtHome m) (fresh : Fresh entry.key m)
    (all_known : occurrences (strange known) m.slots ≡ 0) (new_known : known entry.key ≡ true) where
  abbrev own : ℕ
  own = home hash (capacity m) entry.key

  own_empty : slot m.slots own ≡ none
  own_empty = elim (Option-cases (slot m.slots own)) [
    | inl e ↦ e
    | inr (k, there) ↦
        let way = valid.placed own k there in
        let still : home hash (capacity m) k.key ≡ own =
          sym (ap (λ p. walk (capacity m) p (home hash (capacity m) k.key)) (settled own k there))
          ∙ way in
        let k_known : known k.key ≡ true =
          true_of_not (known k.key)
            (occurrences-fails (strange known) m.slots own k all_known there) in
        let low =
          sym (mod_pow (hash k.key) bits m.capacity_shift wide)
          ∙ ap (λ n. n % 2 ^ bits) still
          ∙ mod_pow (hash entry.key) bits m.capacity_shift wide in
        let same = apart k.key entry.key k_known new_known low in
        let differs = fresh k own there in
        absurd (cc (differs, ap (λ n. n == entry.key) same, ==_self entry.key))
  ]

  -- The pass puts the entry in its own slot at once.
  pub insert_pass-AtHome :
      (m' : ObjectMap) × (i : ℕ) × (insert_pass hash probe_mask m entry ≡ added m' i) × AtHome m'
  unfolding insert_pass insert_loop place_entry
  insert_pass-AtHome =
      let inside : own < capacity m = Nat.mod-lt (hash entry.key) (two_pow m.capacity_shift) in
      let n = capacity m - 1 in
      let more : capacity m ≡ suc n = omega arith in
      let start : Carry = record {
        map = m;
        entry = entry;
        index = own;
        probe_len = 0;
        iter_index = none;
      } in
      let short : ltb probe_mask 0 ≡ false = ground arith in
      let m' = record (place_entry entry own 0 m) { filled_slots = suc m.filled_slots } in
      let run : insert_loop probe_mask entry.key (suc n) start ≡ added m' own =
        rw (short, own_empty) refl in
      (
        m',
        own,
        ap (λ f. insert_loop probe_mask entry.key f start) more ∙ run,
        λ i e h. elim (slot_after hash m valid entry own 0 inside refl i e h) [
          | inl (same, is_new) ↦ ap (λ f. f.probe) is_new
          | inr old ↦ settled i e old
        ],
      )
