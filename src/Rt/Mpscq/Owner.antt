-- ===== src/Rt/Mpscq/Owner.antt =====
-- Who owns a queue of src/rt/ds/mpscq.h: whoever was told that it was asleep, until it sleeps again.
use verona.Prelude.{
  ℕ, zero, suc, ◌+◌, ◌-◌, ◌≤◌, ◌≡◌, refl, sym, ap, subst, ◌∙◌, inl, inr, Bool, true, false, Option,
  none, some, some-injective, List, [], ◌∷◌, arith, get_elem?, bit, Option-cases, Bool-cases,
}
use verona.Rt.Mpscq.Defs.{
  State, no_state, sleeping, notify, Pointer, Mpscq, same_state, has_state, same_pointer,
  clear_state, enqueue_exchange, enqueue_link, dequeue, mark_notify_round, mark_sleeping, wake,
  init,
}
use verona.Rt.Mpscq.Steps.{
  Enqueuer, System, Event, Answer, exchanges, links, dequeues, marks_notify, marks_sleeping, wakes,
  goes_on, was_sleeping, received, now_sleeping, removed, notified, step, step-links,
  step-links_none,
}

abbrev pub asleep : Mpscq → ℕ
asleep q = bit (has_state q.back sleeping)

-- The enqueuers that will be told that the queue was asleep.
abbrev pub waking : List Enqueuer → ℕ
waking [] = 0
waking (e ∷ es) = bit (has_state e.prev sleeping) + waking es

abbrev pub gained : Answer → ℕ
gained goes_on = 0
gained (was_sleeping b) = bit b
gained (received r) = 0
gained (now_sleeping b n) = 0

abbrev pub given_up : Answer → ℕ
given_up goes_on = 0
given_up (was_sleeping b) = 0
given_up (received r) = 0
given_up (now_sleeping b n) = bit b

same_state-eq : (f g : State) → same_state f g ≡ true → f ≡ g
same_state-eq no_state no_state h = refl
same_state-eq sleeping sleeping h = refl
same_state-eq notify notify h = refl
same_state-eq no_state sleeping h = ground arith
same_state-eq no_state notify h = ground arith
same_state-eq sleeping no_state h = ground arith
same_state-eq sleeping notify h = ground arith
same_state-eq notify no_state h = ground arith
same_state-eq notify sleeping h = ground arith

same_pointer-state : (p q : Pointer) → same_pointer p q ≡ true → p.state ≡ q.state
same_pointer-state p q h = same_state-eq p.state q.state (ground arith)

waking-removed :
    (es : List Enqueuer) (i : ℕ) {e : Enqueuer}
    → get_elem? es i ≡ some e
    → waking es ≡ bit (has_state e.prev sleeping) + waking (removed es i)
waking-removed [] i h = ground arith
waking-removed (e ∷ es) zero h =
    ap (λ x. bit (has_state x.prev sleeping) + waking es) (some-injective _ _ h)
waking-removed (e ∷ es) (suc i) h = omega (arith, waking-removed es i h)

mark_notify_round-asleep :
    (bk : Pointer) (q : Mpscq)
    → asleep (mark_notify_round bk q).1 + gained (notified (mark_notify_round bk q).0) ≡ asleep q
unfolding mark_notify_round
mark_notify_round-asleep bk q = elim (Bool-cases (has_state bk notify)) [
  | inl h ↦ rw (h, mark_notify_round) (omega arith)
  | inr h ↦ elim (Bool-cases (same_pointer q.back bk)) [
    | inl h2 ↦
        rw (h, h2, mark_notify_round)
          (omega (arith, ap (λ f. bit (same_state f sleeping)) (same_pointer-state q.back bk h2)))
    | inr h2 ↦ rw (h, h2, mark_notify_round) (omega arith)
  ]
]

mark_sleeping-asleep :
    (bk : Pointer) (q : Mpscq)
    → asleep (mark_sleeping bk q).1 ≡ asleep q + bit (mark_sleeping bk q).0.0
unfolding mark_sleeping
mark_sleeping-asleep bk q =
    ground (arith, same_pointer-state q.back bk, same_pointer-state q.back (clear_state q.front))

wake-asleep : (bk : Pointer) (q : Mpscq) → asleep (wake bk q).1 + bit (wake bk q).0 ≡ asleep q
unfolding wake
wake-asleep bk q = ground (arith, same_pointer-state q.back bk)

dequeue-back : (q : Mpscq) → (dequeue q).1.back ≡ q.back
unfolding dequeue
dequeue-back q = ground arith

notified-given_up : (r : Option Bool) → given_up (notified r) ≡ 0
notified-given_up none = refl
notified-given_up (some b) = refl

-- A step moves the ownership: from a queue that sleeps to an enqueuer or to whoever is told, and back.
abbrev Balances : System → Answer × System → Type 0
Balances s r =
    asleep r.1.queue + waking r.1.enqueuers + gained r.0
    ≡ asleep s.queue + waking s.enqueuers + given_up r.0

step-Balances : (e : Event) (s : System) {r : Answer × System} → step e s ≡ some r → Balances s r
unfolding step enqueue_exchange enqueue_link
step-Balances (exchanges t) s h = subst (Balances s) (some-injective _ _ h) (omega arith)
step-Balances (links i) s {r} h = elim (Option-cases (get_elem? s.enqueuers i)) [
  | inl out ↦ ground (arith, step-links_none i s out)
  | inr (e, here) ↦
      subst (Balances s) (some-injective _ _ (sym (step-links i s here) ∙ h))
        (omega (arith, waking-removed s.enqueuers i here))
]
step-Balances dequeues s h =
    subst (Balances s) (some-injective _ _ h)
      (omega (arith, ap (λ b. bit (has_state b sleeping)) (dequeue-back s.queue)))
step-Balances (marks_notify bk) s h = subst (Balances s) (some-injective _ _ h) (
    omega (
      arith,
      mark_notify_round-asleep bk s.queue,
      notified-given_up (mark_notify_round bk s.queue).0,
    ))
step-Balances (marks_sleeping bk) s h =
    subst (Balances s) (some-injective _ _ h) (omega (arith, mark_sleeping-asleep bk s.queue))
step-Balances (wakes bk) s h =
    subst (Balances s) (some-injective _ _ h) (omega (arith, wake-asleep bk s.queue))

-- Only an owner puts the queue to sleep: a caller that was told that it slept, and has not since then put
-- it to sleep. `owners` is how many there are.
abbrev pub IsOwners : Event → ℕ → Type 0
IsOwners (exchanges t) owners = Unit
IsOwners (links i) owners = Unit
IsOwners dequeues owners = Unit
IsOwners (marks_notify bk) owners = Unit
IsOwners (marks_sleeping bk) owners = owners ≡ 1
IsOwners (wakes bk) owners = Unit

-- Steps from a new queue, which has no owner.
pub data Owned : System → ℕ → Type 0 where
  opens :
      (stub : ℕ) (next : ℕ → Pointer) → Owned (record { queue = init stub next; enqueuers = [] }) 0
  moves :
      {s s' : System} {owners : ℕ} {a : Answer} (e : Event)
      → Owned s owners
      → IsOwners e owners
      → step e s ≡ some (a, s')
      → Owned s' (owners + gained a - given_up a)

gives_up_once : (b : Bool) → bit b ≤ 1
gives_up_once true = omega arith
gives_up_once false = omega arith

answers-given_up :
    (e : Event) (s : System) (owners : ℕ) {r : Answer × System}
    → IsOwners e owners
    → step e s ≡ some r
    → given_up r.0 ≤ owners
unfolding step
answers-given_up (exchanges t) s owners ok h =
    subst (λ r. given_up r.0 ≤ owners) (some-injective _ _ h) (omega arith)
answers-given_up (links i) s owners {r} ok h = elim (Option-cases (get_elem? s.enqueuers i)) [
  | inl out ↦ ground (arith, step-links_none i s out)
  | inr (e, here) ↦
      subst (λ q. given_up q.0 ≤ owners) (some-injective _ _ (sym (step-links i s here) ∙ h))
        (omega arith)
]
answers-given_up dequeues s owners ok h =
    subst (λ r. given_up r.0 ≤ owners) (some-injective _ _ h) (omega arith)
answers-given_up (marks_notify bk) s owners ok h =
    subst (λ r. given_up r.0 ≤ owners) (some-injective _ _ h)
      (omega (arith, notified-given_up (mark_notify_round bk s.queue).0))
answers-given_up (marks_sleeping bk) s owners ok h =
    subst (λ r. given_up r.0 ≤ owners) (some-injective _ _ h)
      (omega (arith, gives_up_once (mark_sleeping bk s.queue).0.0))
answers-given_up (wakes bk) s owners ok h =
    subst (λ r. given_up r.0 ≤ owners) (some-injective _ _ h) (omega arith)

-- For any sequence of steps from a new queue in which only an owner puts the queue to sleep: exactly one
-- of these is so: the queue sleeps; one enqueuer is about to be told that it slept; or there is one
-- owner, who was told that the queue slept and has not put it to sleep since then.
pub Owned-one_owner :
    {s : System} {owners : ℕ} → Owned s owners → asleep s.queue + waking s.enqueuers + owners ≡ 1
unfolding init
Owned-one_owner (opens stub next) = omega arith
Owned-one_owner (moves {s} {owners = owners} e before ok go) =
    omega (arith, Owned-one_owner before, step-Balances e s go, answers-given_up e s owners ok go)
