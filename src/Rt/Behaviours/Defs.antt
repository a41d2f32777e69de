-- ===== src/Rt/Behaviours/Defs.antt =====
-- Cowns and behaviours: `schedule`, `fast_send`, `try_fast_send`, `run` and `run_step` of
-- src/rt/sched/cown.h, as steps of calls that interleave. A cown and a body are numbers. The epochs,
-- the notifications and the reference counts are left out.
use verona.Prelude.{
  ℕ, suc, ◌+◌, ◌-◌, ◌^◌, ◌≡◌, ◌++◌, List, [], ◌∷◌, Bool, true, false, ◌==◌, ltb, if◌then◌else◌,
  Option, none, some, length, update,
}
use verona.Rt.ReadRefCount.Defs.{
  size_t, add_read, release_read, try_write_load, try_write_mark, try_write_clear,
}

pub record Request : Type 0 where
  pub cown : ℕ
  pub is_read : Bool

-- `Request::write` and `Request::read`.
abbrev pub write : ℕ → Request
write c = record { cown = c; is_read = false }

abbrev pub read : ℕ → Request
read c = record { cown = c; is_read = true }

-- A call of `schedule`: its body is not made; it takes the locks of these requests; it is to send to
-- these; it has sent to the first, whose queue slept or not; it has found the first asleep; it has
-- acquired the first for reading; it has returned.
pub data Call : Type 0 where
  unsent : Call
  locking : List Request → Call
  sending : List Request → Call
  sent : List Request → Bool → Call
  claimed : List Request → Call
  adding : List Request → Call
  returned : Call

-- A scheduler thread: between cowns; in `run` of a cown; in `run_step` of a cown and a body, before its
-- `fetch_sub`; in the behaviour, with `schedule_after_behaviour`; in the loop behind it.
pub data Turn : Type 0 where
  idle : Turn
  running : ℕ → Turn
  stepping : ℕ → ℕ → Turn
  executing : ℕ → ℕ → Bool → Turn
  releasing : ℕ → ℕ → Bool → List Request → Turn

-- A queue is `none` while it sleeps. `scheduled` is how often the scheduler queues hold a cown.
pub record System : Type 0 where
  pub calls : ℕ → Call
  pub turns : ℕ → Turn
  pub exec_count_down : ℕ → ℕ
  pub queue : ℕ → Option (List ℕ)
  pub enqueue_lock : ℕ → Bool
  pub read_ref_count : ℕ → ℕ
  pub scheduled : ℕ → ℕ

-- `queue.enqueue`: whether the queue slept, and the queue.
unfoldable pub enqueue : ℕ → Option (List ℕ) → Bool × Option (List ℕ)
enqueue b none = (true, some (b ∷ []))
enqueue b (some q) = (false, some (q ++ b ∷ []))

-- `queue.dequeue` of a queue with a message.
unfoldable pub dequeue : Option (List ℕ) → Option (List ℕ)
dequeue none = none
dequeue (some []) = some []
dequeue (some (b ∷ q)) = some q

unfoldable pub fetch_sub : ℕ → ℕ
fetch_sub n = size_t (n + 2 ^ 64 - 1)

unfoldable pub schedule : ℕ → System → System
schedule c s = record s { scheduled = update s.scheduled c (suc (s.scheduled c)) }

abbrev pub call : ℕ → Call → System → System
call b x s = record s { calls = update s.calls b x }

abbrev pub turn : ℕ → Turn → System → System
turn t x s = record s { turns = update s.turns t x }

unfoldable pub set_queue : ℕ → Option (List ℕ) → System → System
set_queue c q s = record s { queue = update s.queue c q }

unfoldable pub set_reads : ℕ → ℕ → System → System
set_reads c n s = record s { read_ref_count = update s.read_ref_count c n }

unfoldable pub set_lock : ℕ → Bool → System → System
set_lock c l s = record s { enqueue_lock = update s.enqueue_lock c l }

-- `body.exec_count_down.fetch_sub(1)`.
unfoldable pub count_down : ℕ → System → System
count_down b s = record s {
  exec_count_down = update s.exec_count_down b (fetch_sub (s.exec_count_down b));
}

-- `try_write` as a whole, with the new count.
unfoldable pub try_write : ℕ → ℕ × Bool
try_write n =
    if try_write_load n
    then (n, true)
    else if (try_write_mark n).1
    then ((try_write_mark n).0, false)
    else (try_write_clear (try_write_mark n).0, true)

-- The request of a body for a cown that runs.
unfoldable pub reads_it : ℕ → List Request → Bool
reads_it c [] = false
reads_it c (r ∷ rs) = if r.cown == c then r.is_read else reads_it c rs

-- Where `fast_send` goes on behind an enqueue.
unfoldable pub after_sent : List Request → Bool → Call
after_sent [] needs_sched = returned
after_sent (r ∷ rs) true = claimed (r ∷ rs)
after_sent (r ∷ rs) false = sending rs

-- One access of a call of `schedule` for the body `b` with these requests, which are sorted; `none`
-- means that it waits for a lock or has returned.
unfoldable pub fast_send : List Request → System → ℕ → Call → Option System
fast_send rs s b unsent = some (
    call b (if ltb 1 (length rs) then locking rs else sending rs)
      (record s { exec_count_down = update s.exec_count_down b (length rs) }))
fast_send rs s b (locking []) = some (call b (sending rs) s)
fast_send rs s b (locking (r ∷ more)) =
    if s.enqueue_lock r.cown then none else some (call b (locking more) (set_lock r.cown true s))
fast_send rs s b (sending []) = some (call b returned s)
fast_send rs s b (sending (r ∷ more)) = some (
    call b (sent (r ∷ more) (enqueue b (s.queue r.cown)).0)
      (set_queue r.cown (enqueue b (s.queue r.cown)).1 s))
fast_send rs s b (sent [] needs_sched) = none
fast_send rs s b (sent (r ∷ more) needs_sched) = some (
    call b (after_sent (r ∷ more) needs_sched)
      (if ltb 1 (length rs) then set_lock r.cown false s else s))
fast_send rs s b (claimed []) = none
fast_send rs s b (claimed (r ∷ [])) = some (call b returned (schedule r.cown s))
fast_send rs s b (claimed (r ∷ r' ∷ more)) = some (
    call b (if r.is_read then adding (r ∷ r' ∷ more) else sending (r' ∷ more))
      (set_queue r.cown (dequeue (s.queue r.cown)) (count_down b s)))
fast_send rs s b (adding []) = none
fast_send rs s b (adding (r ∷ more)) = some (
    call b (sending more)
      (schedule r.cown (set_reads r.cown (add_read (s.read_ref_count r.cown)) s)))
fast_send rs s b returned = none

-- `run` at a message: a write is tried, and if it fails the thread leaves the cown. `peek`, `try_write`
-- and `dequeue` are one step here; `finds_late` below is the case that `peek` finds nothing.
unfoldable pub run_message : List Request → System → ℕ → ℕ → ℕ → System
unfolding reads_it try_write
run_message rs s t c b =
    if reads_it c rs
    then turn t (stepping c b) (set_queue c (dequeue (s.queue c)) s)
    else if (try_write (s.read_ref_count c)).1
    then turn t (stepping c b) (set_queue c (dequeue (s.queue c)) s)
    else turn t idle (set_reads c (try_write (s.read_ref_count c)).0 s)

-- `run` at its queue, which sleeps when it is empty.
unfoldable pub run_queue : (ℕ → List Request) → System → ℕ → ℕ → Option (List ℕ) → System
run_queue requests s t c none = s
run_queue requests s t c (some []) = turn t idle (set_queue c none s)
run_queue requests s t c (some (b ∷ q)) = run_message (requests b) s t c b

-- `run_step` up to the behaviour.
unfoldable pub run_step : List Request → System → ℕ → ℕ → ℕ → System
run_step rs s t c b =
    if reads_it c rs
    then (if ltb 1 (s.exec_count_down b)
        then turn t (running c) (count_down b (set_reads c (add_read (s.read_ref_count c)) s))
        else turn t (executing c b false)
            (schedule c (count_down b (set_reads c (add_read (s.read_ref_count c)) s))))
    else (if ltb 1 (s.exec_count_down b)
        then turn t idle (count_down b s)
        else turn t (executing c b true) (count_down b s))

-- A round of the loop behind the behaviour.
unfoldable pub release : System → ℕ → ℕ → ℕ → Bool → Request → List Request → System
release s t c b after r rs =
    if r.is_read
    then (if (release_read (s.read_ref_count r.cown)).1
        then (if r.cown == c
            then turn t (releasing c b true rs) (set_reads r.cown 0 s)
            else turn t (releasing c b after rs) (schedule r.cown (set_reads r.cown 0 s)))
        else turn t (releasing c b after rs)
            (set_reads r.cown (release_read (s.read_ref_count r.cown)).0 s))
    else (if r.cown == c
        then turn t (releasing c b after rs) s
        else turn t (releasing c b after rs) (schedule r.cown s))

-- A part of `run` on a thread.
unfoldable pub run : (ℕ → List Request) → System → ℕ → Turn → System
run requests s t idle = s
run requests s t (running c) = run_queue requests s t c (s.queue c)
run requests s t (stepping c b) = run_step (requests b) s t c b
run requests s t (executing c b after) = turn t (releasing c b after (requests b)) s
run requests s t (releasing c b after []) = turn t (if after then running c else idle) s
run requests s t (releasing c b after (r ∷ rs)) = release s t c b after r rs

-- The steps of the calls and of the threads. A message that was linked behind a `peek` that found nothing
-- is taken by the `dequeue` without `try_write`. A thread may return from `run` at the end of a batch, and
-- then the cown is scheduled again.
pub data Step (requests : ℕ → List Request) : System → System → Type 0 where
  sends :
      (s s' : System) (b : ℕ)
      → fast_send (requests b) s b (s.calls b) ≡ some s'
      → Step requests s s'
  picks :
      (s : System) (t c n : ℕ)
      → s.turns t ≡ idle
      → s.scheduled c ≡ suc n
      → Step requests s (turn t (running c) (record s { scheduled = update s.scheduled c n }))
  runs : (s : System) (t : ℕ) → Step requests s (run requests s t (s.turns t))
  finds_late :
      (s : System) (t c b : ℕ) (q : List ℕ)
      → s.turns t ≡ running c
      → s.queue c ≡ some (b ∷ q)
      → Step requests s (turn t (stepping c b) (set_queue c (dequeue (s.queue c)) s))
  returns :
      (s : System) (t c : ℕ) → s.turns t ≡ running c → Step requests s (turn t idle (schedule c s))

unfoldable pub initial : System
initial = record {
  calls = λ b. unsent;
  turns = λ t. idle;
  exec_count_down = λ b. 0;
  queue = λ c. none;
  enqueue_lock = λ c. false;
  read_ref_count = λ c. 0;
  scheduled = λ c. 0;
}

pub data Reachable (requests : ℕ → List Request) : System → Type 0 where
  start : Reachable requests initial
  next : {s s' : System} → Reachable requests s → Step requests s s' → Reachable requests s'
