-- ===== src/Rt/ObjectMap/Index.antt =====
-- The index that a pass of `insert` of src/rt/ds/hashmap.h returns.
use verona.Prelude.{
  ℕ, zero, suc, ◌<◌, ◌≡◌, ◌≢◌, length, refl, ap, ◌∙◌, inl, inr, true, false, Option, none, some,
  ◌==◌, ltb, arith, Bool-cases, ==_self,
}
use verona.Rt.ObjectMap.Defs.{
  Entry, ObjectMap, Slots, slot, capacity, place_entry, holds_key, Carry, Pass, added, first_index,
  carry_on, insert_loop, insert_pass,
}
use verona.Rt.ObjectMap.Walk.{slot-set_same, slot-set_other}
use verona.Rt.ObjectMap.Keeps.{IsMap, IsCarry, carry_on-IsCarry}
use verona.Rt.ObjectMap.Insert.{Fresh, start-IsCarry}

-- The key is in hand, or at the index that was noted for it.
abbrev pub Noted : ℕ → Option ℕ → Entry → Slots → Type 0
Noted key none entry xs = entry.key ≡ key
Noted key (some i) entry xs = holds_key key (slot xs i) ≡ true

-- What the pass returns is the index of a slot with the key.
abbrev pub IndexIs : ℕ → Pass → Type 0
IndexIs key (added m i) = holds_key key (slot m.slots i) ≡ true
IndexIs key _ = Unit {0}

-- After the entry in hand is put into a slot without the key, the key is at the first index.
place-Noted :
    (key : ℕ) (iter : Option ℕ) (e : Entry) (p i : ℕ) (m : ObjectMap)
    → i < length m.slots
    → holds_key key (slot m.slots i) ≡ false
    → Noted key iter e m.slots
    → holds_key key (slot (place_entry e i p m).slots (first_index iter i)) ≡ true
unfolding place_entry
place-Noted key none e p i m low other same =
    ap (holds_key key) (slot-set_same m.slots i (some (record e { probe = p })) low)
    ∙ ap (λ k. k == key) same
    ∙ ==_self key
place-Noted key (some j) e p i m low other there =
    let apart : j ≢ i = λ eq. cc (ap (λ n. holds_key key (slot m.slots n)) eq, there, other) in
    ap (holds_key key) (slot-set_other m.slots i j _ apart) ∙ there

module _ (hash : ℕ → ℕ) where
  carry_on-Noted :
      (key d : ℕ) (k : Entry) (c : Carry)
      → IsCarry hash key d c
      → slot c.map.slots c.index ≡ some k
      → (k.key == key) ≡ false
      → Noted key c.iter_index c.entry c.map.slots
      → Noted key (carry_on k c).iter_index (carry_on k c).entry (carry_on k c).map.slots
  unfolding carry_on
  carry_on-Noted key d k c h there other noted = elim (Bool-cases (ltb k.probe c.probe_len)) [
    | inl swaps ↦ rw swaps (
        place-Noted key c.iter_index c.entry c.probe_len c.index c.map
          (omega (arith, h.valid.sized, h.inside)) (ap (holds_key key) there ∙ other) noted)
    | inr stays ↦ rw stays noted
  ]

  pub insert_loop-IndexIs :
      (probe_mask key fuel d : ℕ) (c : Carry)
      → IsCarry hash key d c
      → Noted key c.iter_index c.entry c.map.slots
      → IndexIs key (insert_loop probe_mask key fuel c)
  unfolding insert_loop
  insert_loop-IndexIs probe_mask key zero d c h noted = tt
  insert_loop-IndexIs probe_mask key (suc fuel) zero c h noted =
      let put =
        place-Noted key c.iter_index c.entry c.probe_len c.index c.map
          (omega (arith, h.valid.sized, h.inside)) (ap (holds_key key) h.clear) noted in
      elim (Bool-cases (ltb probe_mask c.probe_len)) [
        | inl long ↦ rw long tt
        | inr short ↦ rw (short, h.clear) put
      ]
  insert_loop-IndexIs probe_mask key (suc fuel) (suc d) c h noted =
      let ((k, there, other), ahead) = h.clear in
      let next = (carry_on-IsCarry hash (λ k v. true) key k d c there h).0 in
      let rest =
        insert_loop-IndexIs probe_mask key fuel d (carry_on k c) next
          (carry_on-Noted key (suc d) k c h there other noted) in
      elim (Bool-cases (ltb probe_mask c.probe_len)) [
        | inl long ↦ rw long tt
        | inr short ↦ rw (short, there, other) rest
      ]

-- A pass that adds an entry returns the index of its key.
pub insert_pass-IndexIs :
    (hash : ℕ → ℕ) (probe_mask : ℕ) (m : ObjectMap) (entry : Entry)
    → IsMap hash m
    → m.filled_slots < capacity m
    → Fresh entry.key m
    → IndexIs entry.key (insert_pass hash probe_mask m entry)
unfolding insert_pass
insert_pass-IndexIs hash probe_mask m entry valid space fresh =
    let (d, low, start) = start-IsCarry hash probe_mask m entry valid space fresh in
    insert_loop-IndexIs hash probe_mask entry.key (capacity m) d _ start refl
