-- ===== src/Rt/ThreadState/Retract.antt =====
-- A retraction sends a cycle back to scanning before it sweeps.
use verona.Prelude.{ℕ, ◌≡◌, ◌≢◌, ◌⊎◌, inl, inr, subst, true, Option, none, some, arith, set}
use verona.Rt.ThreadState.Defs.{
  State, all_in_scan, believe_done, really_done, sweep, believe_done_retract, ThreadState, next,
  dispatch,
}
use verona.Rt.ThreadState.Thread.{Thread, System, Step, want, check, work, round, ask, entered}

-- A retraction is on record and the round of votes is not over.
abbrev Retracting : ThreadState → Type 0
Retracting ts = (ts.retracted ≡ true) × ((ts.state ≡ believe_done) ⊎ (ts.state ≡ really_done))

-- Steps of the system between which the global state is never `all_in_scan`.
pub data Quiet (n : ℕ) (s : System) : System → Type 0 where
  here : Quiet n s s
  next_step : {t u : System} → Quiet n s t → Step n t u → u.pool.state ≢ all_in_scan → Quiet n s u

-- A round under a retraction ends under it, or back in `all_in_scan`.
dispatch-Retracting :
    (g l : State) (v a b n : ℕ) {ts : ThreadState} {l' : State}
    → (g ≡ believe_done) ⊎ (g ≡ really_done)
    → dispatch g l
        (record {
          state = g;
          retracted = true;
          vote_yes = v;
          active_threads = a;
          barrier_count = b;
        })
        n
      ≡ some (ts, l')
    → Retracting ts ⊎ (ts.state ≡ all_in_scan)
unfolding dispatch
dispatch-Retracting believe_done l v a b n h e = ground arith
dispatch-Retracting really_done l v a b n h e = ground arith
dispatch-Retracting _ l v a b n h e = ground arith

entered-eq-some :
    (t : Thread) (o : Option (ThreadState × State)) {ts : ThreadState} {t' : Thread}
    → entered t o ≡ some (ts, t')
    → (l : State) × (o ≡ some (ts, l))
unfolding entered
entered-eq-some t none h = cc
entered-eq-some t (some (ts, l)) h = (l, ground arith)

Step-Retracting :
    {n : ℕ} {s t : System}
    → Step n s t
    → Retracting s.pool
    → Retracting t.pool ⊎ (t.pool.state ≡ all_in_scan)
unfolding ask next
Step-Retracting (want i at) h = inl h
Step-Retracting (check i q at) h = inl h
Step-Retracting (work i k u at) h = inl h
Step-Retracting {n} {s} (round i {t} {ts} at answer) (r, g) =
    let (l, e) = entered-eq-some t _ answer in
    dispatch-Retracting s.pool.state t.state s.pool.vote_yes s.pool.active_threads
      s.pool.barrier_count n g
      (subst (λ b. dispatch s.pool.state t.state (record s.pool { retracted = b }) n ≡ some (ts, l))
        r e)

Quiet-Retracting : {n : ℕ} {s t : System} → Quiet n s t → Retracting s.pool → Retracting t.pool
Quiet-Retracting here h = h
Quiet-Retracting (next_step q st ne) h = elim (Step-Retracting st (Quiet-Retracting q h)) [
  | inl done ↦ done
  | inr back ↦ absurd (ne back)
]

-- A thread that retracts puts the retraction on record.
retract-Retracting :
    (ts : ThreadState) (t : Thread) (n : ℕ) {ts' : ThreadState} {t' : Thread}
    → ts.state ≡ believe_done
    → t.state ≡ believe_done_retract
    → ask ts t n ≡ some (ts', t')
    → Retracting ts'
unfolding ask next dispatch entered
retract-Retracting ts t n g l h = ground arith

-- A thread that answers `BelieveDone` with a retraction keeps the system out of `Sweep`: whatever
-- steps the threads take afterwards, no state in `Sweep` is reached before one in `AllInScan`.
pub retract_blocks_sweep :
    {n : ℕ} (s u : System) (i : ℕ) (t t' : Thread) (ts : ThreadState)
    → s.pool.state ≡ believe_done
    → t.state ≡ believe_done_retract
    → ask s.pool t n ≡ some (ts, t')
    → Quiet n (record { pool = ts; threads = set s.threads i t' }) u
    → u.pool.state ≢ sweep
retract_blocks_sweep {n} s u i t t' ts g l h q =
    let (r, where_now) = Quiet-Retracting q (retract-Retracting s.pool t n g l h) in
    λ e. ground arith
