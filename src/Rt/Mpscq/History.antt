-- ===== src/Rt/Mpscq/History.antt =====
-- Sequences of steps from a new queue of src/rt/ds/mpscq.h, with the messages sent, taken and left.
use verona.Prelude.{
  ℕ, ◌≡◌, ◌≢◌, refl, sym, ap, subst, ◌∙◌, inl, inr, Bool, Option, none, some, some-injective, List,
  [], ◌∷◌, ◌++◌, arith, get_elem?, Option-cases, drop,
}
use verona.Rt.Mpscq.Defs.{
  Pointer, enqueue_link, dequeue, mark_notify_round, mark_sleeping, wake, init,
}
use verona.Rt.Mpscq.Steps.{
  System, Event, Answer, exchanges, links, dequeues, marks_notify, marks_sleeping, wakes, goes_on,
  was_sleeping, received, now_sleeping, notified, removed, step, step-links, step-links_none,
}
use verona.Rt.Mpscq.Chain.{IsFresh}
use verona.Rt.Mpscq.Exchanges.{
  mark_notify_round-Keeps, mark_sleeping-Keeps, wake-Keeps, SameChain-IsChain,
}
use verona.Rt.Mpscq.ChainSteps.{
  IsChain, init-IsChain, exchange-IsChain, link-IsChain, Dequeued, dequeue-Dequeued,
}

-- What an event puts in, what an answer takes out, and what is then left of the messages.
abbrev pub sends : Event → List ℕ
sends (exchanges t) = t ∷ []
sends (links i) = []
sends dequeues = []
sends (marks_notify bk) = []
sends (marks_sleeping bk) = []
sends (wakes bk) = []

abbrev pub takes : Answer → List ℕ
takes (received (some (m, n))) = m ∷ []
takes (received none) = []
takes goes_on = []
takes (was_sleeping b) = []
takes (now_sleeping b n) = []

abbrev pub left : Event → Answer → List ℕ → List ℕ
left e (received (some (m, n))) rest = drop 1 rest ++ sends e
left e (received none) rest = rest ++ sends e
left e goes_on rest = rest ++ sends e
left e (was_sleeping b) rest = rest ++ sends e
left e (now_sleeping b n) rest = rest ++ sends e

-- A message that is enqueued is not null, and not in the queue already.
abbrev pub Obeys : Event → System → List ℕ → Type 0
Obeys (exchanges t) s rest = (0 ≢ t) × IsFresh t (s.queue.front ∷ rest)
Obeys (links i) s rest = Unit
Obeys dequeues s rest = Unit
Obeys (marks_notify bk) s rest = Unit
Obeys (marks_sleeping bk) s rest = Unit
Obeys (wakes bk) s rest = Unit

-- The steps from a new queue on: the system, the messages in the order of their exchanges, those that
-- `dequeue` returned in its order, and those that are still in the queue.
pub data History : System → List ℕ → List ℕ → List ℕ → Type 0 where
  opens :
      (stub : ℕ) (next : ℕ → Pointer)
      → History (record { queue = init stub next; enqueuers = [] }) [] [] []
  moves :
      {s s2 : System} {sent taken rest : List ℕ} {a : Answer} (e : Event)
      → History s sent taken rest
      → Obeys e s rest
      → step e s ≡ some (a, s2)
      → History s2 (sent ++ sends e) (taken ++ takes a) (left e a rest)

-- A step keeps the chain, and a message that is taken is the first.
abbrev pub Moved : Event → List ℕ → Answer × System → Type 0
Moved e rest r = IsChain r.1 (left e r.0 rest) × (rest ++ sends e ≡ takes r.0 ++ left e r.0 rest)

pub append-nil : (xs : List ℕ) → xs ++ [] ≡ xs
append-nil [] = refl
append-nil (x ∷ xs) = ap (λ ys. x ∷ ys) (append-nil xs)

stays :
    (e : Event) (a : Answer) (s2 : System) (rest : List ℕ)
    → sends e ≡ []
    → takes a ≡ []
    → left e a rest ≡ rest ++ sends e
    → IsChain s2 rest
    → Moved e rest (a, s2)
stays e a s2 rest se ta le h =
    let same = le ∙ ap (λ x. rest ++ x) se ∙ append-nil rest in
    (subst (IsChain s2) (sym same) h, sym le ∙ ap (λ x. x ++ left e a rest) (sym ta))

notified-takes : (r : Option Bool) → takes (notified r) ≡ []
notified-takes none = refl
notified-takes (some b) = refl

notified-left :
    (e : Event) (r : Option Bool) (rest : List ℕ) → left e (notified r) rest ≡ rest ++ sends e
notified-left e none rest = refl
notified-left e (some b) rest = refl

dequeue-Moved :
    (s : System) (rest : List ℕ)
    → IsChain s rest
    → Dequeued s rest
    → Moved dequeues rest (received (dequeue s.queue).0, record s { queue = (dequeue s.queue).1 })
dequeue-Moved s rest h (inl nothing) =
    subst (λ r. Moved dequeues rest (received r.0, record s { queue = r.1 })) (sym nothing)
      (stays dequeues (received none) s rest refl refl refl h)
dequeue-Moved s rest h (inr (m, n, later, here, takes_it, after)) =
    subst (λ r. Moved dequeues rest (received r.0, record s { queue = r.1 })) (sym takes_it)
      (subst
        (λ xs. Moved dequeues xs (
          received (some (m, n)),
          record s {
            queue = record s.queue { front = m; deallocated = s.queue.front ∷ s.queue.deallocated };
          },
        ))
        (sym here)
        (
          subst
              (IsChain (record s {
                queue = record s.queue {
                  front = m;
                  deallocated = s.queue.front ∷ s.queue.deallocated;
                };
              }))
              (sym (append-nil later)) after,
          refl,
        ))

pub step-Moved :
    (e : Event) (s : System) (rest : List ℕ) {r : Answer × System}
    → IsChain s rest
    → Obeys e s rest
    → step e s ≡ some r
    → Moved e rest r
unfolding step
step-Moved (exchanges t) s rest h (_, fresh) go =
    subst (Moved (exchanges t) rest) (some-injective _ _ go)
      (exchange-IsChain t s rest h fresh, refl)
step-Moved (links i) s rest h ok go = elim (Option-cases (get_elem? s.enqueuers i)) [
  | inl out ↦ ground (arith, step-links_none i s out)
  | inr (e, here) ↦
      subst (Moved (links i) rest) (some-injective _ _ (sym (step-links i s here) ∙ go)) (
        stays (links i) (was_sleeping (enqueue_link e.t e.prev s.queue).0)
          (record {
            queue = (enqueue_link e.t e.prev s.queue).1;
            enqueuers = removed s.enqueuers i;
          })
          rest refl refl refl (link-IsChain i s e rest h here))
]
step-Moved dequeues s rest h ok go =
    subst (Moved dequeues rest) (some-injective _ _ go)
      (dequeue-Moved s rest h (dequeue-Dequeued s rest h))
step-Moved (marks_notify bk) s rest h ok go =
    let r = mark_notify_round bk s.queue in
    subst (Moved (marks_notify bk) rest) (some-injective _ _ go) (
      stays (marks_notify bk) (notified r.0) (record s { queue = r.1 }) rest refl
        (notified-takes r.0) (notified-left (marks_notify bk) r.0 rest)
        (SameChain-IsChain s r.1 rest (mark_notify_round-Keeps bk s.queue).keeps h))
step-Moved (marks_sleeping bk) s rest h ok go =
    let r = mark_sleeping bk s.queue in
    subst (Moved (marks_sleeping bk) rest) (some-injective _ _ go) (
      stays (marks_sleeping bk) (now_sleeping r.0.0 r.0.1) (record s { queue = r.1 }) rest refl refl
        refl (SameChain-IsChain s r.1 rest (mark_sleeping-Keeps bk s.queue).keeps h))
step-Moved (wakes bk) s rest h ok go =
    let r = wake bk s.queue in
    subst (Moved (wakes bk) rest) (some-injective _ _ go) (
      stays (wakes bk) (was_sleeping r.0) (record s { queue = r.1 }) rest refl refl refl
        (SameChain-IsChain s r.1 rest (wake-Keeps bk s.queue).keeps h))

pub History-IsChain :
    {s : System} {sent taken rest : List ℕ} → History s sent taken rest → IsChain s rest
History-IsChain (opens stub next) = init-IsChain stub next
History-IsChain (moves {s} {rest = rest} e before ok go) =
    (step-Moved e s rest (History-IsChain before) ok go).0
