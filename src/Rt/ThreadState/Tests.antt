-- ===== src/Rt/ThreadState/Tests.antt =====
-- Runs of the protocol with given threads in a given order, and the theorems at their ends.
use verona.Prelude.{
  ℕ, ◌≡◌, refl, ◌≢◌, ◌⊎◌, true, false, Option, none, some, List, [], ◌∷◌, ◌++◌, arith, get_elem?,
  set,
}
use mathlib.Core.List.{foldl}
use verona.Rt.EpochMark.{epoch_a, epoch_b}
use verona.Rt.ThreadState.Defs.{
  State, not_in_ld, scan, believe_done, believe_done_retract, believe_done_ack, sweep, ThreadState,
  next,
}
use verona.Rt.ThreadState.Thread.{
  Thread, System, want, check, work, round, Reach, start, later, ask, request_ld, initial,
  believe_done_check, should_scan, initial_thread,
}
use verona.Rt.ThreadState.Safety.{next_never_aborts, sweep_excludes_scan, scanners_agree}
use verona.Rt.ThreadState.Retract.{retract_blocks_sweep, here}
use verona.Rt.ThreadState.OneThread.{one_thread_never_sweeps}

data Act : Type 0 where
  wants checks rounds drains schedules : ℕ → Act

record Run (n : ℕ) : Type 0 where
  last : System
  reach : Reach n last

on_some {ℓ} : {A : Type 0} {B : Type ℓ} (o : Option A) → ((a : A) → o ≡ some a → B) → B → B
on_some none f b = b
on_some (some a) f b = f a refl

turn : {n : ℕ} → Run n → Act → Run n
unfolding on_some
turn r (wants i) =
    on_some (get_elem? r.last.threads i)
      (λ t e. record { last = _; reach = later r.reach (want i e) }) r
turn r (checks i) =
    on_some (get_elem? r.last.threads i)
      (λ t e. record { last = _; reach = later r.reach (check i true e) }) r
turn r (drains i) =
    on_some (get_elem? r.last.threads i)
      (λ t e. record { last = _; reach = later r.reach (work i 0 false e) }) r
turn r (schedules i) =
    on_some (get_elem? r.last.threads i)
      (λ t e. record { last = _; reach = later r.reach (work i 0 true e) }) r
turn {n} r (rounds i) =
    on_some (get_elem? r.last.threads i)
      (λ t e.
        on_some (ask r.last.pool t n)
          (λ a h. record {
            last = record { pool = a.0; threads = set r.last.threads i a.1 };
            reach = later r.reach (round i e h);
          })
          r)
      r

run : (n : ℕ) → List Act → Run n
unfolding turn request_ld believe_done_check ask next
run n = foldl turn (record { last = initial n; reach = start })

abbrev to_all_in_scan : List Act
to_all_in_scan = wants 0 ∷ rounds 0 ∷ rounds 1 ∷ rounds 0 ∷ rounds 1 ∷ []

abbrev to_sweep : List Act
to_sweep =
    to_all_in_scan
    ++ (drains 0
        ∷ drains 1
        ∷ checks 0
        ∷ checks 1
        ∷ rounds 0
        ∷ rounds 1
        ∷ rounds 1
        ∷ rounds 0
        ∷ rounds 0
        ∷ rounds 0
        ∷ rounds 1
        ∷ rounds 0
        ∷ [])

abbrev sweeping : Run 2
sweeping = run 2 to_sweep

sweeping_states : (sweeping.last.pool.state ≡ sweep) × (sweeping.last.pool.vote_yes ≡ 0)
unfolding run
sweeping_states = (refl, refl)

-- The states of the two threads in that run.
sweeping_threads :
    (get_elem? sweeping.last.threads 0
      ≡ some (record initial_thread { state = sweep; send_epoch = epoch_b; prev_epoch = epoch_a }))
unfolding run
sweeping_threads = refl

next_never_aborts_example : next sweeping.last.pool sweep 2 ≢ none
unfolding run
next_never_aborts_example = next_never_aborts (omega arith) (omega arith) sweeping.reach 0 _ refl

sweep_excludes_scan_example : should_scan State.really_done_confirm ≡ false
unfolding run
sweep_excludes_scan_example =
    sweep_excludes_scan (omega arith) (omega arith) sweeping.reach 0 1 _ _ refl refl refl

abbrev both_scan : Run 2
both_scan = run 2 to_all_in_scan

scanners_agree_example : (epoch_b ≡ epoch_b) × ((epoch_b ≡ epoch_a) ⊎ (epoch_b ≡ epoch_b))
unfolding run should_scan
scanners_agree_example =
    scanners_agree (omega arith) (omega arith) both_scan.reach 0 1 _ _ refl refl refl refl

-- Thread 1 has scheduled an unscanned cown and is about to retract.
abbrev retracting : Run 2
retracting = run 2 (
    to_all_in_scan
    ++ (drains 0 ∷ drains 1 ∷ checks 0 ∷ checks 1 ∷ schedules 1 ∷ rounds 0 ∷ rounds 1 ∷ []))

abbrev retracting_thread : Thread
retracting_thread = record {
  state = believe_done_retract;
  send_epoch = epoch_b;
  prev_epoch = epoch_a;
  n_ld_tokens = 0;
  scheduled_unscanned_cown = true;
}

abbrev retracted_pool : ThreadState
retracted_pool = record {
  state = believe_done;
  retracted = true;
  vote_yes = 1;
  active_threads = 0;
  barrier_count = 0;
}

retracting_reached : get_elem? retracting.last.threads 1 ≡ some retracting_thread
unfolding run
retracting_reached = refl

retract_blocks_sweep_example : believe_done ≢ sweep
unfolding run ask next
retract_blocks_sweep_example =
    retract_blocks_sweep {n = 2} retracting.last _ 1 retracting_thread
      (record retracting_thread { state = believe_done_ack }) retracted_pool refl refl refl here

abbrev scanning_thread : Thread
scanning_thread = record {
  state = scan;
  send_epoch = epoch_b;
  prev_epoch = epoch_a;
  n_ld_tokens = 2;
  scheduled_unscanned_cown = false;
}

abbrev alone : Run 1
alone = run 1 (wants 0 ∷ rounds 0 ∷ [])

one_thread_never_sweeps_example :
    (alone.last.pool.state ≡ not_in_ld)
    ⊎ ((alone.last.pool.state ≡ scan)
        × (scanning_thread.state ≡ scan)
        × (ask alone.last.pool scanning_thread 1 ≡ some (alone.last.pool, scanning_thread)))
unfolding run
one_thread_never_sweeps_example = one_thread_never_sweeps 0 scanning_thread alone.reach refl
