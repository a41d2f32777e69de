-- ===== src/Rt/Behaviours/Tests.antt =====
-- Runs of cowns and behaviours.
use verona.Prelude.{
  inl, inr, ◌==◌, Bool-cases, ℕ, zero, suc, ◌<◌, ◌≤◌, ◌^◌, ◌≡◌, refl, List, [], ◌∷◌, Bool, true,
  false, Option, none, some, length, update, arith,
}
use verona.Rt.ReadRefCount.Defs.{add_read, try_write_load}
use verona.Rt.Behaviours.Defs.{
  Request, write, read, locking, sending, claimed, returned, Turn, idle, running, stepping,
  executing, releasing, System, turn, fast_send, run, sends, picks, runs, initial, Reachable, start,
  next, enqueue, dequeue, fetch_sub, schedule, set_queue, set_reads, set_lock, count_down,
  try_write, reads_it, after_sent, run_message, run_queue, run_step, release,
}
use verona.Rt.Behaviours.Holding.{
  is_unsent, IsSorted, AllWrite, WritesOnly, member, asleep, IsFirst,
}
use verona.Rt.Behaviours.Exclusion.{executing_exclude, assertions_hold, scheduled_at_most_once}
use verona.Rt.Behaviours.Waiting.{IsQuiet}
use verona.Rt.Behaviours.Progress.{quiet_is_done}

-- What may happen: a call goes on, a thread takes a cown, goes on, or returns from `run`.
data Act : Type 0 where
  goes : ℕ → Act
  takes : ℕ → ℕ → Act
  works : ℕ → Act

take_cown : System → ℕ → ℕ → Turn → ℕ → System
take_cown s t c idle (suc n) = turn t (running c) (record s { scheduled = update s.scheduled c n })
take_cown s t c _ _ = s

or_stay : System → Option System → System
or_stay s none = s
or_stay s (some s') = s'

act : (ℕ → List Request) → System → Act → System
unfolding or_stay take_cown
act requests s (goes b) = or_stay s (fast_send (requests b) s b (s.calls b))
act requests s (takes t c) = take_cown s t c (s.turns t) (s.scheduled c)
act requests s (works t) = run requests s t (s.turns t)

play : (ℕ → List Request) → System → List Act → System
play requests s [] = s
play requests s (a ∷ rest) = play requests (act requests s a) rest

module _ {requests : ℕ → List Request} {s : System} (r : Reachable requests s) where
  goes-Reachable :
      (b : ℕ) (o : Option System)
      → fast_send (requests b) s b (s.calls b) ≡ o
      → Reachable requests (or_stay s o)
  unfolding or_stay
  goes-Reachable b none e = r
  goes-Reachable b (some s') e = next r (sends s s' b e)

  takes-Reachable :
      (t c : ℕ) (y : Turn) (n : ℕ)
      → s.turns t ≡ y
      → s.scheduled c ≡ n
      → Reachable requests (take_cown s t c y n)
  unfolding take_cown
  takes-Reachable t c idle (suc n) e h = next r (picks s t c n e h)
  takes-Reachable t c idle zero e h = r
  takes-Reachable t c (running c') n e h = r
  takes-Reachable t c (stepping c' b) n e h = r
  takes-Reachable t c (executing c' b after) n e h = r
  takes-Reachable t c (releasing c' b after rs) n e h = r

act-Reachable :
    {requests : ℕ → List Request} {s : System} (a : Act)
    → Reachable requests s
    → Reachable requests (act requests s a)
unfolding act
act-Reachable {requests} {s} (goes b) r = goes-Reachable r b _ refl
act-Reachable {requests} {s} (takes t c) r = takes-Reachable r t c _ _ refl refl
act-Reachable {requests} {s} (works t) r = next r (runs s t)

play-Reachable :
    {requests : ℕ → List Request} (l : List Act) {s : System}
    → Reachable requests s
    → Reachable requests (play requests s l)
unfolding play
play-Reachable [] r = r
play-Reachable (a ∷ l) r = play-Reachable l (act-Reachable a r)

-- Body 0 wants the cowns 1 and 2, body 1 the cown 3, all others the cown 4.
two_bodies : ℕ → List Request
two_bodies zero = write 1 ∷ write 2 ∷ []
two_bodies (suc zero) = write 3 ∷ []
two_bodies (suc (suc n)) = write 4 ∷ []

two_bodies-WritesOnly : WritesOnly two_bodies
unfolding two_bodies
two_bodies-WritesOnly = record {
  sorted = two_bodies_sorted;
  writes = two_bodies_writes;
  short = two_bodies_short;
}
  where
    two_bodies_sorted : (b : ℕ) → IsSorted (two_bodies b)
    two_bodies_sorted zero = omega arith
    two_bodies_sorted (suc zero) = omega arith
    two_bodies_sorted (suc (suc n)) = omega arith

    two_bodies_writes : (b : ℕ) → AllWrite (two_bodies b)
    two_bodies_writes zero = (refl, (refl, tt))
    two_bodies_writes (suc zero) = (refl, tt)
    two_bodies_writes (suc (suc n)) = (refl, tt)

    two_bodies_short : (b : ℕ) → length (two_bodies b) < 2 ^ 64
    two_bodies_short zero = omega arith
    two_bodies_short (suc zero) = omega arith
    two_bodies_short (suc (suc n)) = omega arith

again : ℕ → Act → List Act → List Act
again zero a l = l
again (suc n) a l = a ∷ again n a l

both_run : List Act
unfolding again
both_run =
    again 10 (goes 0)
      (again 4 (goes 1) (takes 0 2 ∷ works 0 ∷ works 0 ∷ takes 1 3 ∷ works 1 ∷ works 1 ∷ []))

both : System
unfolding both_run again two_bodies play act or_stay take_cown initial fast_send run enqueue dequeue
    fetch_sub schedule set_queue set_lock count_down try_write after_sent run_message run_queue
    run_step release reads_it try_write_load
both = play two_bodies initial both_run

both_execute :
    (both.turns 0 ≡ executing 2 0 true)
    × (both.turns 1 ≡ executing 3 1 true)
    × (both.exec_count_down 0 ≡ 0)
unfolding both
both_execute = (refl, refl, refl)

both-Reachable : Reachable two_bodies both
unfolding both
both-Reachable = play-Reachable both_run start

executing_exclude_example : (◌≡◌ {A = ℕ} 1 1) × (◌≡◌ {A = ℕ} 1 1)
unfolding two_bodies
executing_exclude_example =
    executing_exclude 1 1 3 two_bodies-WritesOnly both-Reachable both_execute.1 both_execute.1 refl
      refl

-- Where the call for body 0 has found the cown 1 asleep, and a thread runs the cown 3.
halfway : System
unfolding again two_bodies play act or_stay take_cown initial fast_send run enqueue dequeue
    fetch_sub schedule set_queue set_lock count_down try_write after_sent run_message run_queue
    run_step release reads_it try_write_load
halfway = play two_bodies initial (again 6 (goes 0) (again 4 (goes 1) (takes 0 3 ∷ [])))

halfway-Reachable : Reachable two_bodies halfway
unfolding halfway
halfway-Reachable = play-Reachable (again 6 (goes 0) (again 4 (goes 1) (takes 0 3 ∷ []))) start

assertions_hold_example :
    ((b : ℕ) (q : Request) (qs : List Request)
      → halfway.calls b ≡ claimed (q ∷ qs)
      → IsFirst b (halfway.queue q.cown))
    × ((t c : ℕ) → halfway.turns t ≡ running c → asleep (halfway.queue c) ≡ false)
assertions_hold_example = assertions_hold two_bodies-WritesOnly halfway-Reachable

halfway_claimed : halfway.calls 0 ≡ claimed (write 1 ∷ write 2 ∷ [])
unfolding halfway
halfway_claimed = refl

scheduled_at_most_once_example :
    ((c : ℕ) → halfway.scheduled c ≤ 1)
    × ((t c : ℕ) → halfway.turns t ≡ running c → halfway.scheduled c ≡ 0)
    × ((t c b x : ℕ) (after : Bool)
        → halfway.turns t ≡ executing c b after
        → member x (two_bodies b) ≡ true
        → halfway.scheduled x ≡ 0)
    × ((t t' c : ℕ) → halfway.turns t ≡ running c → halfway.turns t' ≡ running c → t ≡ t')
scheduled_at_most_once_example = scheduled_at_most_once two_bodies-WritesOnly halfway-Reachable

-- Body 0 reads the cown 1, all others write the cowns 1 and 2.
reader_and_writer : ℕ → List Request
reader_and_writer zero = read 1 ∷ []
reader_and_writer (suc n) = write 1 ∷ write 2 ∷ []

-- While body 0 reads the cown 1, which has gone to sleep, body 1 acquires it and writes.
race_run : List Act
unfolding again
race_run = again 4 (goes 0) (
    takes 0 1
    ∷ works 0
    ∷ works 0
    ∷ takes 1 1
    ∷ works 1
    ∷ again 10 (goes 1) (takes 1 2 ∷ works 1 ∷ works 1 ∷ []))

race : System
unfolding race_run again reader_and_writer play act or_stay take_cown initial fast_send run enqueue
    dequeue fetch_sub schedule set_queue set_lock count_down try_write after_sent run_message
    run_queue run_step release reads_it try_write_load add_read
race = play reader_and_writer initial race_run

race-Reachable : Reachable reader_and_writer race
unfolding race
race-Reachable = play-Reachable race_run start

race_reads_and_writes : (race.turns 0 ≡ executing 1 0 false) × (race.turns 1 ≡ executing 2 1 true)
unfolding race set_reads
race_reads_and_writes = (refl, refl)

-- The reader of the cown 1 at work, before the writer is sent.
reading : System
unfolding again reader_and_writer play act or_stay take_cown initial fast_send run enqueue dequeue
    fetch_sub schedule set_queue set_lock count_down try_write after_sent run_message run_queue
    run_step release reads_it try_write_load add_read
reading =
    play reader_and_writer initial
      (again 4 (goes 0) (takes 0 1 ∷ works 0 ∷ works 0 ∷ takes 1 1 ∷ works 1 ∷ again 4 (goes 1) []))

reading_asleep :
    (reading.queue 1 ≡ none)
    × (reading.calls 1 ≡ sending (write 1 ∷ write 2 ∷ []))
    × (reading.read_ref_count 1 ≡ 2)
    × (reading.turns 0 ≡ executing 1 0 false)
unfolding reading set_reads
reading_asleep = (refl, refl, refl, refl)

-- The writer has acquired the sleeping cown without a look at the count of its readers: the cown is
-- counted down, its queue awake and empty, and the reader still executes.
ignored : System
unfolding again reader_and_writer play act or_stay fast_send enqueue dequeue fetch_sub set_queue
    set_lock count_down after_sent
ignored = play reader_and_writer reading (again 3 (goes 1) [])

ignores_readers :
    (ignored.calls 1 ≡ sending (write 2 ∷ []))
    × (ignored.exec_count_down 1 ≡ 1)
    × (ignored.queue 1 ≡ some [])
    × (ignored.read_ref_count 1 ≡ 2)
    × (ignored.turns 0 ≡ executing 1 0 false)
unfolding ignored reading set_reads
ignores_readers = (refl, refl, refl, refl, refl)

-- A body that requests the cown 1 twice.
one_cown_twice : ℕ → List Request
one_cown_twice b = write 1 ∷ write 1 ∷ []

own_lock : System
unfolding again one_cown_twice play act or_stay initial fast_send set_lock
own_lock = play one_cown_twice initial (again 2 (goes 0) [])

-- Its call waits for the lock that it holds itself; no thread has anything to do.
waits_for_itself :
    (own_lock.calls 0 ≡ locking (write 1 ∷ []))
    × (fast_send (one_cown_twice 0) own_lock 0 (own_lock.calls 0) ≡ none)
    × (own_lock.exec_count_down 0 ≡ 2)
    × (own_lock.scheduled 1 ≡ 0)
    × (own_lock.turns 0 ≡ idle)
unfolding own_lock fast_send one_cown_twice set_lock
waits_for_itself = (refl, refl, refl, refl, refl)

-- Body 1 from its call to the end of its behaviour, and its cown asleep again.
whole_run : List Act
unfolding again
whole_run = again 4 (goes 1) (takes 0 3 ∷ again 6 (works 0) [])

finished : System
unfolding whole_run again two_bodies play act or_stay take_cown initial fast_send run enqueue
    dequeue fetch_sub schedule set_queue set_lock count_down try_write after_sent run_message
    run_queue run_step release reads_it try_write_load
finished = play two_bodies initial whole_run

finished-Reachable : Reachable two_bodies finished
unfolding finished
finished-Reachable = play-Reachable whole_run start

finished-IsQuiet : IsQuiet two_bodies finished
unfolding finished initial fast_send
finished-IsQuiet = record {
  calls_wait =
      λ b. elim (Bool-cases (b == 1)) [ inl e ↦ rw e (λ h. refl) | inr e ↦ rw e (λ h. cc) ];
  none_scheduled = λ c. elim (Bool-cases (c == 3)) [ inl e ↦ rw e refl | inr e ↦ rw e refl ];
  threads_idle = λ t. elim (Bool-cases (t == 0)) [ inl e ↦ rw e refl | inr e ↦ rw e refl ];
}

two_bodies_below : (b c : ℕ) → member c (two_bodies b) ≡ true → c < 5
unfolding two_bodies
two_bodies_below zero c m = ground (arith, m)
two_bodies_below (suc zero) c m = ground (arith, m)
two_bodies_below (suc (suc n)) c m = ground (arith, m)

quiet_is_done_example :
    ((b : ℕ)
      → is_unsent (finished.calls b) ≡ false
      → (finished.calls b ≡ returned) × (finished.exec_count_down b ≡ 0))
    × ((c : ℕ) → (finished.queue c ≡ none) × (finished.enqueue_lock c ≡ false))
quiet_is_done_example =
    quiet_is_done 5 two_bodies-WritesOnly two_bodies_below finished-Reachable finished-IsQuiet
