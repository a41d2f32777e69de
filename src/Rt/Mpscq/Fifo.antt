-- ===== src/Rt/Mpscq/Fifo.antt =====
-- What a queue of src/rt/ds/mpscq.h hands out is what was enqueued, in the order of the exchanges.
use verona.Prelude.{
  ℕ, ◌≡◌, ◌≢◌, refl, sym, ap, subst, ◌∙◌, inl, inr, true, none, some, List, [], ◌∷◌, ◌++◌, arith,
  get_elem?, All-append,
}
use verona.Rt.Mpscq.Defs.{Pointer, clear_state, Mpscq, same_pointer, dequeue, mark_sleeping, peek}
use verona.Rt.Mpscq.Steps.{
  Enqueuer, System, Event, Answer, exchanges, links, dequeues, marks_notify, marks_sleeping, wakes,
  goes_on, was_sleeping, received, now_sleeping,
}
use verona.Rt.Mpscq.Chain.{waiting, waiting-≢, IsFresh, last-≢, Links}
use verona.Rt.Mpscq.Exchanges.{same-address}
use verona.Rt.Mpscq.ChainSteps.{IsChain}
use verona.Rt.Mpscq.History.{
  sends, takes, left, Obeys, History, opens, moves, append-nil, step-Moved, History-IsChain,
}

append_assoc : (xs ys zs : List ℕ) → (xs ++ ys) ++ zs ≡ xs ++ (ys ++ zs)
append_assoc [] ys zs = refl
append_assoc (x ∷ xs) ys zs = ap (λ r. x ∷ r) (append_assoc xs ys zs)

in_order :
    {s : System} {sent taken rest : List ℕ} → History s sent taken rest → sent ≡ taken ++ rest
in_order (opens stub next) = refl
in_order (moves {s} {sent = sent} {taken} {rest} {a} e before ok go) =
    ap (λ xs. xs ++ sends e) (in_order before)
    ∙ append_assoc taken rest (sends e)
    ∙ ap (λ xs. taken ++ xs) (step-Moved e s rest (History-IsChain before) ok go).1
    ∙ sym (append_assoc taken (takes a) (left e a rest))

-- For any sequence of steps from a new queue in which no message is enqueued that is null or in the
-- queue: the messages that were enqueued, in the order of the exchanges, are those that `dequeue`
-- returned, in that order, and then those that are in the queue behind `front`, up to the one that `back`
-- points at: each of them is linked behind the one before, or that one's `next` is null and exactly one
-- enqueuer is about to link it; behind the last one nothing is linked or about to be.
pub sent-taken :
    {s : System} {sent taken rest : List ℕ}
    → History s sent taken rest
    → (sent ≡ taken ++ rest)
      × Links s.queue.next (waiting s.enqueuers) s.queue.back.address s.queue.front rest
sent-taken h = (in_order h, (History-IsChain h).links)

sends-NonNull : (e : Event) (s : System) (rest : List ℕ) → Obeys e s rest → IsFresh 0 (sends e)
sends-NonNull (exchanges t) s rest (ne, f) = (ne, tt)
sends-NonNull (links i) s rest ok = tt
sends-NonNull dequeues s rest ok = tt
sends-NonNull (marks_notify bk) s rest ok = tt
sends-NonNull (marks_sleeping bk) s rest ok = tt
sends-NonNull (wakes bk) s rest ok = tt

left-NonNull :
    (e : Event) (a : Answer) (s : System) (rest : List ℕ)
    → Obeys e s rest
    → IsFresh 0 rest
    → IsFresh 0 (left e a rest)
left-NonNull e (received (some (m, n))) s [] ok f = sends-NonNull e s [] ok
left-NonNull e (received (some (m, n))) s (b ∷ rest) ok f =
    All-append _ rest (sends e) f.1 (sends-NonNull e s (b ∷ rest) ok)
left-NonNull e (received none) s rest ok f =
    All-append _ rest (sends e) f (sends-NonNull e s rest ok)
left-NonNull e goes_on s rest ok f = All-append _ rest (sends e) f (sends-NonNull e s rest ok)
left-NonNull e (was_sleeping b) s rest ok f =
    All-append _ rest (sends e) f (sends-NonNull e s rest ok)
left-NonNull e (now_sleeping b n) s rest ok f =
    All-append _ rest (sends e) f (sends-NonNull e s rest ok)

History-NonNull :
    {s : System} {sent taken rest : List ℕ} → History s sent taken rest → IsFresh 0 rest
History-NonNull (opens stub next) = tt
History-NonNull (moves {s} {rest = rest} {a} e before ok go) =
    left-NonNull e a s rest ok (History-NonNull before)

-- A linked message is found.
linked-found : (q : Mpscq) (b : ℕ) → (q.next q.front).address ≡ b → 0 ≢ b → (dequeue q).0 ≡ none → ⊥
unfolding dequeue
linked-found q b linked ne nothing = ground arith

nothing_waits : (es : List Enqueuer) (a b : ℕ) → es ≡ [] → waiting es a ≡ b ∷ [] → ⊥
nothing_waits [] a b e w = ground arith
nothing_waits (x ∷ es) a b e w = ground arith

idle-nil :
    (s : System) (rest : List ℕ)
    → IsChain s rest
    → IsFresh 0 rest
    → s.enqueuers ≡ []
    → (dequeue s.queue).0 ≡ none
    → rest ≡ []
idle-nil s [] h f idle nothing = refl
idle-nil s (b ∷ later) h f idle nothing = elim h.links.0 [
  | inl (linked, _) ↦ absurd (linked-found s.queue b linked f.0 nothing)
  | inr (_, waits) ↦ absurd (nothing_waits s.enqueuers s.queue.front b idle waits)
]

-- For any sequence of steps from a new queue in which no message is enqueued that is null or in the
-- queue: when no enqueuer stands between the exchange and the link, `peek` returns the first message that is in the
-- queue, if there is one.
pub peek-first :
    {s : System} {sent taken rest : List ℕ} {b : ℕ} {later : List ℕ}
    → History s sent taken rest
    → rest ≡ b ∷ later
    → s.enqueuers ≡ []
    → peek s.queue ≡ b
unfolding peek
peek-first {s} {b = b} {later} h first idle =
    elim (subst (IsChain s) first (History-IsChain h)).links.0 [
      | inl (linked, _) ↦ linked
      | inr (_, waits) ↦ absurd (nothing_waits s.enqueuers s.queue.front b idle waits)
    ]

slept-exchange :
    (bk : Pointer) (q : Mpscq)
    → (mark_sleeping bk q).0.0 ≡ true
    → same_pointer q.back (clear_state q.front) ≡ true
unfolding mark_sleeping
slept-exchange bk q h = ground arith

slept-nil :
    (bk : Pointer) (s : System) (rest : List ℕ)
    → IsChain s rest
    → (mark_sleeping bk s.queue).0.0 ≡ true
    → rest ≡ []
slept-nil bk s [] h slept = refl
slept-nil bk s (b ∷ later) h slept = absurd (
    last-≢ s.queue.next (waiting s.enqueuers) s.queue.back.address b later s.queue.front h.links.1
      h.distinct.0
      (same-address s.queue.back (clear_state s.queue.front) (slept-exchange bk s.queue slept)))

all_taken :
    {s : System} {sent taken rest : List ℕ} → History s sent taken rest → rest ≡ [] → sent ≡ taken
all_taken {taken = taken} h empty = in_order h ∙ ap (λ xs. taken ++ xs) empty ∙ append-nil taken

-- For any sequence of steps from a new queue in which no message is enqueued that is null or in
-- the queue: when no enqueuer stands between the exchange and the link, `dequeue` returns null only if every
-- message that was enqueued has been dequeued.
pub idle-dequeue :
    {s : System} {sent taken rest : List ℕ}
    → History s sent taken rest
    → s.enqueuers ≡ []
    → (dequeue s.queue).0 ≡ none
    → sent ≡ taken
idle-dequeue {s} {rest = rest} h idle nothing =
    all_taken h (idle-nil s rest (History-IsChain h) (History-NonNull h) idle nothing)

-- For any sequence of steps from a new queue in which no message is enqueued that is null or in
-- the queue: `mark_sleeping` succeeds only if every message that was enqueued has been dequeued, whatever pointer
-- it has read from `back`.
pub mark_sleeping-emptied :
    {s : System} {sent taken rest : List ℕ} (bk : Pointer)
    → History s sent taken rest
    → (mark_sleeping bk s.queue).0.0 ≡ true
    → sent ≡ taken
mark_sleeping-emptied {s} {rest = rest} bk h slept =
    all_taken h (slept-nil bk s rest (History-IsChain h) slept)

-- For any sequence of steps from a new queue in which no message is enqueued that is null or in the
-- queue: the message that an enqueuer is about to write to is `front` or a message behind it.
pub prev_held :
    {s : System} {sent taken rest : List ℕ} (i : ℕ) {e : Enqueuer}
    → History s sent taken rest
    → get_elem? s.enqueuers i ≡ some e
    → ¬ IsFresh e.prev.address (s.queue.front ∷ rest)
prev_held {s} i {e} h here outside =
    waiting-≢ s.enqueuers i e.prev.address here refl
      ((History-IsChain h).apart e.prev.address outside)
