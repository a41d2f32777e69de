-- ===== src/Rt/Mpscq/Tests.antt =====
-- Runs of the queue of src/rt/ds/mpscq.h, and concrete uses of its properties.
use verona.Prelude.{ℕ, ◌+◌, ◌≡◌, refl, Option, none, some, List, [], ◌∷◌, ◌++◌, arith}
use verona.Rt.Mpscq.Defs.{nullptr, clear_state, set_state, sleeping, init, dequeue, mark_sleeping}
use verona.Rt.Mpscq.Steps.{
  System, Event, Answer, exchanges, links, dequeues, marks_notify, marks_sleeping, run, step,
}
use verona.Rt.Mpscq.Owner.{asleep, waking, Owned, Owned-one_owner}
use verona.Rt.Mpscq.Owner as Owner
use verona.Rt.Mpscq.Chain.{waiting, Links}
use verona.Rt.Mpscq.History.{History, opens, moves}
use verona.Rt.Mpscq.Fifo.{sent-taken, idle-dequeue, mark_sleeping-emptied}

abbrev start : System
unfolding init
start = record { queue = init 1 (λ a. nullptr); enqueuers = [] }

abbrev outcome : Option (List Answer × System) → List Answer × System
outcome none = ([], start)
outcome (some r) = r

-- A message wakes the queue, it sleeps again, a notification wakes it.
abbrev wake_twice : List Event
wake_twice =
    exchanges 4
    ∷ links 0
    ∷ dequeues
    ∷ marks_sleeping (clear_state 4)
    ∷ marks_notify (set_state 4 sleeping)
    ∷ []

abbrev woken : List Answer × System
unfolding run start
woken = outcome (run wake_twice start)

abbrev after : List Event → System → System
unfolding run
after events s = (outcome (run events s)).1

abbrev sent_one : System
unfolding after start
sent_one = after (exchanges 4 ∷ []) start

abbrev linked_one : System
unfolding after sent_one
linked_one = after (links 0 ∷ []) sent_one

abbrev taken_one : System
unfolding after linked_one
taken_one = after (dequeues ∷ []) linked_one

abbrev sleeps_again : System
unfolding after taken_one
sleeps_again = after (marks_sleeping (clear_state 4) ∷ []) taken_one

woken-Owned : Owned woken.1 1
unfolding woken sleeps_again start step init
woken-Owned =
    Owner.moves {s = sleeps_again} (marks_notify (set_state 4 sleeping))
      (Owner.moves {s = taken_one} (marks_sleeping (clear_state 4))
        (Owner.moves {s = linked_one} dequeues
          (Owner.moves {s = sent_one} (links 0)
            (Owner.moves {s = start} (exchanges 4) (Owner.opens 1 (λ a. nullptr)) tt refl) tt refl)
          tt refl)
        refl refl)
      tt refl

Owned-one_owner_example : asleep woken.1.queue + waking woken.1.enqueuers + 1 ≡ 1
Owned-one_owner_example = Owned-one_owner woken-Owned

-- Two enqueuers exchange, the second links first, and `dequeue` finds nothing until the first has linked.
abbrev two_enqueuers : System
unfolding run start
two_enqueuers = (outcome (run (exchanges 4 ∷ exchanges 5 ∷ links 0 ∷ dequeues ∷ []) start)).1

abbrev both_linked : System
unfolding after two_enqueuers
both_linked = after (links 0 ∷ []) two_enqueuers

abbrev one_taken : System
unfolding after both_linked
one_taken = after (dequeues ∷ []) both_linked

abbrev two_taken : System
unfolding after one_taken
two_taken = after (dequeues ∷ []) one_taken

two_enqueuers-History : History two_enqueuers (4 ∷ 5 ∷ []) [] (4 ∷ 5 ∷ [])
unfolding two_enqueuers start step init
two_enqueuers-History =
    moves {s = after (links 0 ∷ []) (after (exchanges 5 ∷ []) (after (exchanges 4 ∷ []) start))}
      dequeues
      (moves {s = after (exchanges 5 ∷ []) (after (exchanges 4 ∷ []) start)} (links 0)
        (moves {s = after (exchanges 4 ∷ []) start} (exchanges 5)
          (moves {s = start} (exchanges 4) (opens 1 (λ a. nullptr))
            ((λ e. omega arith), ((λ e. omega arith), tt)) refl)
          ((λ e. omega arith), ((λ e. omega arith), ((λ e. omega arith), tt))) refl)
        tt refl)
      tt refl

one_taken-History : History one_taken (4 ∷ 5 ∷ []) (4 ∷ []) (5 ∷ [])
unfolding one_taken step
one_taken-History =
    moves {s = both_linked} dequeues
      (moves {s = two_enqueuers} (links 0) two_enqueuers-History tt refl) tt refl

two_taken-History : History two_taken (4 ∷ 5 ∷ []) (4 ∷ 5 ∷ []) []
unfolding two_taken step
two_taken-History = moves {s = one_taken} dequeues one_taken-History tt refl

abbrev sent_messages : List ℕ
sent_messages = 4 ∷ 5 ∷ []

sent-taken_example :
    (sent_messages ≡ (4 ∷ []) ++ (5 ∷ []))
    × Links one_taken.queue.next
        (waiting one_taken.enqueuers)
        one_taken.queue.back.address
        one_taken.queue.front
        (5 ∷ [])
sent-taken_example = sent-taken one_taken-History

idle-dequeue_example : sent_messages ≡ 4 ∷ 5 ∷ []
unfolding two_taken dequeue
idle-dequeue_example = idle-dequeue two_taken-History refl refl

mark_sleeping-emptied_example : sent_messages ≡ 4 ∷ 5 ∷ []
unfolding two_taken mark_sleeping
mark_sleeping-emptied_example = mark_sleeping-emptied (clear_state 5) two_taken-History refl
