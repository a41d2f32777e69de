-- ===== src/Rt/ThreadState/Thread.antt =====
-- The leak-detector part of `SchedulerThread`, src/rt/sched/schedulerthread.h, `should_scan` of
-- src/rt/sched/threadpool.h, and the threads over one `ThreadState`, interleaved in any order.
-- `next_state` holds the lock of the thread pool, so a call of it is one step.
use verona.Prelude.{
  ℕ, ◌≡◌, Bool, true, false, not, ◌&&◌, Option, none, some, List, ◌==◌, if◌then◌else◌, get_elem?,
  set, replicate,
}
use verona.Rt.EpochMark.{EpochMark, epoch_none, epoch_a, epoch_b, mark_eq}
use verona.Rt.ThreadState.Defs.{
  State, not_in_ld, want_ld, pre_scan, scan, all_in_scan, believe_done_vote, believe_done_voted,
  believe_done, believe_done_confirm, believe_done_retract, believe_done_ack, really_done,
  really_done_confirm, really_done_retract, sweep, finished, ThreadState, next,
}

pub record Thread : Type 0 where
  pub state : State
  pub send_epoch : EpochMark
  pub prev_epoch : EpochMark
  pub n_ld_tokens : ℕ
  pub scheduled_unscanned_cown : Bool

-- The enumerator's value.
abbrev pub state_value : State → ℕ
state_value not_in_ld = 0
state_value want_ld = 1
state_value pre_scan = 2
state_value scan = 3
state_value all_in_scan = 4
state_value believe_done_vote = 5
state_value believe_done_voted = 6
state_value believe_done = 7
state_value believe_done_confirm = 8
state_value believe_done_retract = 9
state_value believe_done_ack = 10
state_value really_done = 11
state_value really_done_confirm = 12
state_value really_done_retract = 13
state_value sweep = 14
state_value finished = 15

abbrev pub state_eq : State → State → Bool
state_eq a b = state_value a == state_value b

unfoldable pub request_ld : Thread → Thread
request_ld t = if state_eq t.state not_in_ld then record t { state = want_ld } else t

unfoldable pub enter_prescan : Thread → Thread
enter_prescan t = record t { prev_epoch = t.send_epoch; send_epoch = epoch_none }

unfoldable pub enter_scan : Thread → Thread
enter_scan t = record t {
  send_epoch = if mark_eq t.prev_epoch epoch_b then epoch_a else epoch_b;
  n_ld_tokens = 2;
  scheduled_unscanned_cown = false;
}

-- The start of `ld_protocol`, before its loop.
unfoldable pub believe_done_check : Bool → Thread → Thread
unfolding enter_scan
believe_done_check no_inflight_messages t =
    if state_eq t.state all_in_scan && t.n_ld_tokens == 0
    then (if not t.scheduled_unscanned_cown && no_inflight_messages
        then record t { state = believe_done_vote }
        else enter_scan t)
    else t

-- The actions of a round of the loop, by the state that is entered. The cowns that `collect_cowns`
-- frees are not part of this state.
unfoldable pub on_enter : (sprev : State) → State → Thread → Thread
unfolding enter_prescan enter_scan
on_enter sprev pre_scan t = enter_prescan (record t { state = pre_scan })
on_enter sprev scan t =
    let t' = record t { state = scan } in
    enter_scan (if state_eq sprev pre_scan then t' else enter_prescan t')
on_enter sprev all_in_scan t =
    let t' = record t { state = all_in_scan } in
    if state_eq sprev pre_scan then enter_scan t' else t'
on_enter sprev believe_done t = record t {
  state = if t.scheduled_unscanned_cown then believe_done_retract else believe_done_confirm;
}
on_enter sprev snext t = record t { state = snext }

unfoldable pub enter : State → Thread → Thread
unfolding on_enter
enter snext t = if state_eq snext t.state then t else on_enter t.state snext t

unfoldable pub entered : Thread → Option (ThreadState × State) → Option (ThreadState × Thread)
unfolding enter
entered t none = none
entered t (some (ts, snext)) = some (ts, enter snext t)

-- A round of the loop of `ld_protocol`: ask for the next state and act on it.
unfoldable pub ask : ThreadState → Thread → ℕ → Option (ThreadState × Thread)
unfolding entered next
ask ts t n = entered t (next ts t.state n)

-- `should_scan` of the thread pool, for a thread in the given state.
unfoldable pub should_scan : State → Bool
should_scan scan = true
should_scan all_in_scan = true
should_scan believe_done_voted = true
should_scan believe_done = true
should_scan believe_done_confirm = true
should_scan believe_done_retract = true
should_scan believe_done_ack = true
should_scan really_done = true
should_scan really_done_retract = true
should_scan _ = false

pub record System : Type 0 where
  pub pool : ThreadState
  pub threads : List Thread

-- `work` is what a thread and its peers do between two rounds: tokens are seen, cowns scheduled.
pub data Step (n : ℕ) (s : System) : System → Type 0 where
  want :
      (i : ℕ) {t : Thread}
      → get_elem? s.threads i ≡ some t
      → Step n s (record s { threads = set s.threads i (request_ld t) })
  check :
      (i : ℕ) (no_inflight_messages : Bool) {t : Thread}
      → get_elem? s.threads i ≡ some t
      → Step n s
          (record s { threads = set s.threads i (believe_done_check no_inflight_messages t) })
  work :
      (i tokens : ℕ) (unscanned : Bool) {t : Thread}
      → get_elem? s.threads i ≡ some t
      → Step n s (record s {
        threads =
            set s.threads i
              (record t { n_ld_tokens = tokens; scheduled_unscanned_cown = unscanned });
      })
  round :
      (i : ℕ) {t t' : Thread} {ts : ThreadState}
      → get_elem? s.threads i ≡ some t
      → ask s.pool t n ≡ some (ts, t')
      → Step n s (record { pool = ts; threads = set s.threads i t' })

abbrev pub initial_thread : Thread
initial_thread = record {
  state = not_in_ld;
  send_epoch = epoch_a;
  prev_epoch = epoch_b;
  n_ld_tokens = 0;
  scheduled_unscanned_cown = false;
}

abbrev pub initial_pool : ThreadState
initial_pool = record {
  state = not_in_ld;
  retracted = false;
  vote_yes = 0;
  active_threads = 0;
  barrier_count = 0;
}

abbrev pub initial : ℕ → System
initial n = record { pool = initial_pool; threads = replicate n initial_thread }

pub data Reach (n : ℕ) : System → Type 0 where
  start : Reach n (initial n)
  later : {s t : System} → Reach n s → Step n s t → Reach n t
