-- ===== src/Rt/Mpscq/Exchanges.antt =====
-- The functions of src/rt/ds/mpscq.h that change the state of `back` leave the messages as they are.
use verona.Prelude.{
  ℕ, ◌≡◌, refl, sym, subst, inl, inr, true, false, none, some, List, arith, ◌==◌, eq_of_==,
  Bool-cases,
}
use verona.Rt.Mpscq.Defs.{
  State, no_state, sleeping, notify, Pointer, has_state, clear_state, set_state, Mpscq,
  same_pointer, mark_notify_round, mark_sleeping, wake,
}
use verona.Rt.Mpscq.Steps.{System}
use verona.Rt.Mpscq.Chain.{waiting}
use verona.Rt.Mpscq.ChainSteps.{ChainOf, IsChain}

-- The messages are left as they are.
abbrev pub SameChain : Mpscq → Mpscq → Type 0
SameChain q q2 = (q2.next ≡ q.next) × (q2.front ≡ q.front) × (q2.back.address ≡ q.back.address)

pub record Keeps {R : Type 0} (q : Mpscq) (r : R × Mpscq) : Type 0 where
  pub keeps : SameChain q r.1

unchanged : {R : Type 0} (q : Mpscq) (r : R) → Keeps q (r, q)
unchanged q r = record { keeps = (refl, refl, refl) }

pub same-address : (p q : Pointer) → same_pointer p q ≡ true → q.address ≡ p.address
same-address p q h = sym (eq_of_== p.address q.address (ground arith))

exchanged :
    {R : Type 0} (q : Mpscq) (bk : Pointer) (f : State) (r : R)
    → same_pointer q.back bk ≡ true
    → Keeps q (r, record q { back = set_state bk.address f })
exchanged q bk f r h = record { keeps = (refl, refl, same-address q.back bk h) }

pub mark_notify_round-Keeps : (bk : Pointer) (q : Mpscq) → Keeps q (mark_notify_round bk q)
unfolding mark_notify_round
mark_notify_round-Keeps bk q = elim (Bool-cases (has_state bk notify)) [
  | inl h ↦ rw (h, mark_notify_round) (unchanged q (some false))
  | inr h ↦ elim (Bool-cases (same_pointer q.back bk)) [
    | inl h2 ↦
        rw (h, h2, mark_notify_round) (exchanged q bk notify (some (has_state bk sleeping)) h2)
    | inr h2 ↦ rw (h, h2, mark_notify_round) (unchanged q none)
  ]
]

pub mark_sleeping-Keeps : (bk : Pointer) (q : Mpscq) → Keeps q (mark_sleeping bk q)
unfolding mark_sleeping
mark_sleeping-Keeps bk q = elim (Bool-cases (bk.address == q.front)) [
  | inr h ↦ rw (h, mark_sleeping) (unchanged q (false, false))
  | inl h ↦ elim (Bool-cases (has_state bk notify)) [
    | inl h1 ↦ elim (Bool-cases (same_pointer q.back bk)) [
      | inl h2 ↦ rw (h, h1, h2, mark_sleeping) (exchanged q bk no_state (false, true) h2)
      | inr h2 ↦ rw (h, h1, h2, mark_sleeping) (unchanged q (false, false))
    ]
    | inr h1 ↦ elim (Bool-cases (same_pointer q.back (clear_state q.front))) [
      | inl h2 ↦
          rw (h, h1, h2, mark_sleeping)
            (exchanged q (clear_state q.front) sleeping (true, false) h2)
      | inr h2 ↦ rw (h, h1, h2, mark_sleeping) (unchanged q (false, false))
    ]
  ]
]

pub wake-Keeps : (bk : Pointer) (q : Mpscq) → Keeps q (wake bk q)
unfolding wake
wake-Keeps bk q = elim (Bool-cases (has_state bk sleeping)) [
  | inr h ↦ rw (h, wake) (unchanged q false)
  | inl h ↦ elim (Bool-cases (same_pointer q.back bk)) [
    | inl h2 ↦ rw (h, h2, wake) (exchanged q bk no_state true h2)
    | inr h2 ↦ rw (h, h2, wake) (unchanged q false)
  ]
]

pub SameChain-IsChain :
    (s : System) (q : Mpscq) (rest : List ℕ)
    → SameChain s.queue q
    → IsChain s rest
    → IsChain (record s { queue = q }) rest
SameChain-IsChain s q rest (n, f, b) h =
    subst (λ x. ChainOf x (waiting s.enqueuers) q.back.address q.front rest) (sym n)
      (subst (λ x. ChainOf s.queue.next (waiting s.enqueuers) q.back.address x rest) (sym f)
        (subst (λ x. ChainOf s.queue.next (waiting s.enqueuers) x s.queue.front rest) (sym b) h))
