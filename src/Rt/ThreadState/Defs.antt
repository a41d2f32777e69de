-- ===== src/Rt/ThreadState/Defs.antt =====
-- `ThreadState` of src/rt/sched/threadstate.h: the global state of a leak-detector cycle and the
-- answers that it gives to the scheduler threads. `none` stands for `abort()`.
use verona.Prelude.{
  ℕ, ◌+◌, ◌-◌, ◌%◌, ◌^◌, Bool, true, false, Option, none, some, ◌==◌, if◌then◌else◌,
}

pub data State : Type 0 where
  not_in_ld want_ld pre_scan scan all_in_scan : State
  believe_done_vote believe_done_voted believe_done : State
  believe_done_confirm believe_done_retract believe_done_ack : State
  really_done really_done_confirm really_done_retract : State
  sweep finished : State

-- `StateCounters` is the last two fields.
pub record ThreadState : Type 0 where
  pub state : State
  pub retracted : Bool
  pub vote_yes : ℕ
  pub active_threads : ℕ
  pub barrier_count : ℕ

abbrev pub size_t : ℕ → ℕ
size_t n = n % 2 ^ 64

-- What `retracted` becomes when `next` is entered: only `all_in_scan` clears it.
unfoldable pub keep_retracted : State → Bool → Bool
keep_retracted all_in_scan r = false
keep_retracted _ r = r

unfoldable pub reset : State → ThreadState → ThreadState
unfolding keep_retracted
reset next t = record t { state = next; retracted = keep_retracted next t.retracted; vote_yes = 0 }

unfoldable pub reset_one : State → ThreadState → ThreadState
unfolding keep_retracted
reset_one next t = record t {
  state = next;
  retracted = keep_retracted next t.retracted;
  vote_yes = 1;
}

-- The votes after `fetch_add(1)`.
unfoldable pub count_vote : ThreadState → ℕ
count_vote t = size_t (t.vote_yes + 1)

unfoldable pub vote : (intermediate next : State) → ThreadState → ℕ → ThreadState × State
unfolding reset count_vote
vote intermediate next t total_votes =
    if count_vote t == total_votes
    then (reset next t, next)
    else (record t { vote_yes = count_vote t }, intermediate)

unfoldable pub vote_one : (intermediate next : State) → ThreadState → ℕ → ThreadState × State
unfolding reset_one count_vote
vote_one intermediate next t total_votes =
    if count_vote t == total_votes
    then (reset_one next t, next)
    else (record t { vote_yes = count_vote t }, intermediate)

-- The round in which `really_done` answers: the vote's own result is dropped.
unfoldable pub conclude : ThreadState → ℕ → ThreadState × State
unfolding vote
conclude t total_votes =
    if t.retracted
    then ((vote really_done_retract all_in_scan t total_votes).0, really_done_retract)
    else ((vote really_done_confirm sweep t total_votes).0, really_done_confirm)

-- The `switch` on the global state, then on the state of the thread that asks.
unfoldable pub dispatch : State → State → ThreadState → ℕ → Option (ThreadState × State)
unfolding vote vote_one conclude
dispatch not_in_ld not_in_ld t n = some (t, not_in_ld)
dispatch not_in_ld finished t n = some (t, not_in_ld)
dispatch not_in_ld want_ld t n = some (vote_one pre_scan scan (record t { state = pre_scan }) n)
dispatch pre_scan not_in_ld t n = some (vote_one pre_scan scan t n)
dispatch pre_scan want_ld t n = some (vote_one pre_scan scan t n)
dispatch pre_scan finished t n = some (vote_one pre_scan scan t n)
dispatch pre_scan pre_scan t n = some (t, pre_scan)
dispatch scan pre_scan t n = some (vote scan all_in_scan t n)
dispatch scan scan t n = some (t, scan)
dispatch all_in_scan scan t n = some (t, all_in_scan)
dispatch all_in_scan all_in_scan t n = some (t, all_in_scan)
dispatch all_in_scan really_done_retract t n = some (t, all_in_scan)
dispatch all_in_scan believe_done_vote t n = some (vote believe_done_voted believe_done t n)
dispatch all_in_scan believe_done_voted t n = some (t, believe_done_voted)
dispatch believe_done believe_done_voted t n = some (t, believe_done)
dispatch believe_done believe_done_confirm t n = some (vote believe_done_ack really_done t n)
dispatch believe_done believe_done_retract t n =
    some (vote believe_done_ack really_done (record t { retracted = true }) n)
dispatch believe_done believe_done_ack t n = some (t, believe_done_ack)
dispatch really_done believe_done_ack t n = some (conclude t n)
dispatch really_done really_done t n = some (conclude t n)
dispatch really_done really_done_confirm t n = some (t, really_done_confirm)
dispatch really_done really_done_retract t n = some (t, really_done_retract)
dispatch sweep really_done_confirm t n = some (t, sweep)
dispatch sweep sweep t n = some (vote finished not_in_ld t n)
dispatch sweep finished t n = some (t, finished)
dispatch _ _ t n = none

unfoldable pub next : ThreadState → State → ℕ → Option (ThreadState × State)
unfolding dispatch
next t s total_votes = dispatch t.state s t total_votes

-- `set_barrier`, `exit_thread` and the active-thread counter.
unfoldable pub set_barrier : ℕ → ThreadState → ThreadState
set_barrier thread_count t = record t {
  active_threads = thread_count;
  barrier_count = thread_count;
}

unfoldable pub exit_thread : ThreadState → ThreadState × ℕ
exit_thread t =
    let left = size_t (t.barrier_count + 2 ^ 64 - 1) in (record t { barrier_count = left }, left)

unfoldable pub dec_active_threads : ThreadState → ThreadState
dec_active_threads t = record t { active_threads = size_t (t.active_threads + 2 ^ 64 - 1) }

unfoldable pub inc_active_threads : ThreadState → ThreadState
inc_active_threads t = record t { active_threads = size_t (t.active_threads + 1) }
