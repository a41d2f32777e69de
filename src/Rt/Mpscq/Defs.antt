-- ===== src/Rt/Mpscq/Defs.antt =====
-- src/rt/ds/mpscq.h: the queue and the parts of its functions between which other threads run.
-- A pointer to `T` is its address and the state in its two lowest bits; addresses stand for the messages.
use verona.Prelude.{
  List, [], ◌∷◌, ℕ, Bool, true, false, not, ◌&&◌, Option, none, some, ◌==◌, if◌then◌else◌,
}

-- `enum STATE`; `no_state` is NONE.
pub data State : Type 0 where
  no_state : State
  sleeping : State
  notify : State

pub record Pointer : Type 0 where
  pub address : ℕ
  pub state : State

-- `back`, `front`, the `next` field of the messages, and the messages that were given back to the
-- allocator, the last one first.
pub record Mpscq : Type 0 where
  pub back : Pointer
  pub front : ℕ
  pub next : ℕ → Pointer
  pub deallocated : List ℕ

abbrev pub same_state : State → State → Bool
same_state no_state no_state = true
same_state sleeping sleeping = true
same_state notify notify = true
same_state no_state sleeping = false
same_state no_state notify = false
same_state sleeping no_state = false
same_state sleeping notify = false
same_state notify no_state = false
same_state notify sleeping = false

abbrev pub has_state : Pointer → State → Bool
has_state p f = same_state p.state f

abbrev pub set_state : ℕ → State → Pointer
set_state a f = record { address = a; state = f }

-- A pointer without a state.
abbrev pub clear_state : ℕ → Pointer
clear_state a = record { address = a; state = no_state }

abbrev pub nullptr : Pointer
nullptr = clear_state 0

-- The comparison of `compare_exchange_strong`.
abbrev pub same_pointer : Pointer → Pointer → Bool
same_pointer p q = p.address == q.address && same_state p.state q.state

abbrev pub store_next : ℕ → Pointer → Mpscq → Mpscq
store_next a p q = record q { next = λ x. if x == a then p else q.next x }

unfoldable pub init : ℕ → (ℕ → Pointer) → Mpscq
init stub next =
    store_next stub nullptr
      (record { back = set_state stub sleeping; front = stub; next = next; deallocated = [] })

-- `enqueue` up to `yield`: the pointer that the exchange returns.
unfoldable pub enqueue_exchange : ℕ → Mpscq → Pointer × Mpscq
enqueue_exchange t q =
    let fresh = store_next t nullptr q in (q.back, record fresh { back = clear_state t })

-- `enqueue` from `yield` on.
unfoldable pub enqueue_link : ℕ → Pointer → Mpscq → Bool × Mpscq
enqueue_link t prev q =
    let passed_on = if has_state prev notify then set_state t notify else clear_state t in
    (has_state prev sleeping, store_next prev.address passed_on q)

-- `dequeue`: the message, and whether `notify` is set.
unfoldable pub dequeue : Mpscq → Option (ℕ × Bool) × Mpscq
dequeue q =
    let following = q.next q.front in
    if same_pointer following nullptr then (none, q) else (
      some (following.address, has_state following notify),
      record q { front = following.address; deallocated = q.front ∷ q.deallocated },
    )

-- A round of the loop of `mark_notify`, where `bk` is the pointer that was read last: `none` where the
-- exchange fails and the loop goes on.
unfoldable pub mark_notify_round : Pointer → Mpscq → Option Bool × Mpscq
mark_notify_round bk q =
    if has_state bk notify
    then (some false, q)
    else if same_pointer q.back bk
    then (some (has_state bk sleeping), record q { back = set_state bk.address notify })
    else (none, q)

-- `mark_sleeping`, where `bk` is the pointer that it has read: what it returns, and whether `notify` is set.
unfoldable pub mark_sleeping : Pointer → Mpscq → (Bool × Bool) × Mpscq
mark_sleeping bk q =
    if not (bk.address == q.front)
    then ((false, false), q)
    else if has_state bk notify
    then (if same_pointer q.back bk
        then ((false, true), record q { back = clear_state bk.address })
        else ((false, false), q))
    else if same_pointer q.back (clear_state q.front)
    then ((true, false), record q { back = set_state q.front sleeping })
    else ((false, false), q)

-- `wake`, where `bk` is the pointer that it has read.
unfoldable pub wake : Pointer → Mpscq → Bool × Mpscq
wake bk q =
    if not (has_state bk sleeping)
    then (false, q)
    else if same_pointer q.back bk
    then (true, record q { back = clear_state bk.address })
    else (false, q)

-- What the consumer finds in front, and the ends of the queue.
unfoldable pub peek : Mpscq → ℕ
peek q = (q.next q.front).address

unfoldable pub peek_back : Mpscq → ℕ
peek_back q = q.back.address

unfoldable pub is_sleeping : Mpscq → Bool
is_sleeping q = has_state q.back sleeping

unfoldable pub destroy : Mpscq → ℕ × Mpscq
destroy q = (q.front, record q { back = nullptr; front = 0 })
