-- ===== src/Rt/Mpscq/Steps.antt =====
-- The threads that use a queue of src/rt/ds/mpscq.h, as steps in any order. A thread that has run the
-- first part of `enqueue` is kept in a list until it runs the second. A pointer that a thread has read
-- from `back` may be out of date when the thread uses it, so a step is given any pointer for it.
use verona.Prelude.{ℕ, zero, suc, ◌≡◌, Bool, Option, none, some, List, [], ◌∷◌, get_elem?, refl}
use verona.Rt.Mpscq.Defs.{
  Pointer, Mpscq, enqueue_exchange, enqueue_link, dequeue, mark_notify_round, mark_sleeping, wake,
}

-- Between the two parts of `enqueue`: its locals `prev` and `t`.
pub record Enqueuer : Type 0 where
  pub prev : Pointer
  pub t : ℕ

pub record System : Type 0 where
  pub queue : Mpscq
  pub enqueuers : List Enqueuer

pub data Event : Type 0 where
  exchanges : ℕ → Event
  links : ℕ → Event
  dequeues : Event
  marks_notify : Pointer → Event
  marks_sleeping : Pointer → Event
  wakes : Pointer → Event

pub data Answer : Type 0 where
  goes_on : Answer
  was_sleeping : Bool → Answer
  received : Option (ℕ × Bool) → Answer
  now_sleeping : Bool → Bool → Answer

abbrev pub removed : List Enqueuer → ℕ → List Enqueuer
removed [] i = []
removed (e ∷ es) zero = es
removed (e ∷ es) (suc i) = e ∷ removed es i

abbrev pub notified : Option Bool → Answer
notified none = goes_on
notified (some b) = was_sleeping b

-- `none` where there is no such enqueuer.
unfoldable pub step : Event → System → Option (Answer × System)
unfolding enqueue_exchange enqueue_link dequeue mark_notify_round mark_sleeping wake
step (exchanges t) s =
    let (prev, q) = enqueue_exchange t s.queue in
    some (goes_on, record { queue = q; enqueuers = record { prev = prev; t = t } ∷ s.enqueuers })
step (links i) s = elim (get_elem? s.enqueuers i) [
  | none ↦ none
  | some e ↦
      let (slept, q) = enqueue_link e.t e.prev s.queue in
      some (was_sleeping slept, record { queue = q; enqueuers = removed s.enqueuers i })
]
step dequeues s = let (r, q) = dequeue s.queue in some (received r, record s { queue = q })
step (marks_notify bk) s =
    let (r, q) = mark_notify_round bk s.queue in some (notified r, record s { queue = q })
step (marks_sleeping bk) s =
    let ((r, n), q) = mark_sleeping bk s.queue in some (now_sleeping r n, record s { queue = q })
step (wakes bk) s = let (r, q) = wake bk s.queue in some (was_sleeping r, record s { queue = q })

unfoldable pub run : List Event → System → Option (List Answer × System)
unfolding step
run [] s = some ([], s)
run (e ∷ es) s = elim (step e s) [
  | none ↦ none
  | some (a, next) ↦ elim (run es next) [
    | none ↦ none
    | some (answers, last) ↦ some (a ∷ answers, last)
  ]
]

-- A step of `links`.
pub step-links :
    (i : ℕ) (s : System) {e : Enqueuer}
    → get_elem? s.enqueuers i ≡ some e
    → step (links i) s
      ≡ some (
        was_sleeping (enqueue_link e.t e.prev s.queue).0,
        record { queue = (enqueue_link e.t e.prev s.queue).1; enqueuers = removed s.enqueuers i },
      )
unfolding step
step-links i s h = rw (h, step) refl

pub step-links_none :
    (i : ℕ) (s : System) → get_elem? s.enqueuers i ≡ none → step (links i) s ≡ none
unfolding step
step-links_none i s h = rw (h, step) refl
