-- ===== src/Rt/ThreadState/Safety.antt =====
-- What the leak-detector protocol guarantees in every reachable state.
use verona.Prelude.{
  ℕ, ◌^◌, ◌<◌, ◌≡◌, ◌≢◌, ◌⊎◌, sym, ◌∙◌, Bool, true, false, Option, none, some, arith, get_elem?,
}
use verona.Rt.EpochMark.{EpochMark, epoch_a, epoch_b}
use verona.Rt.ThreadState.Defs.{State, sweep, ThreadState, next}
use verona.Rt.ThreadState.Thread.{Thread, System, Reach, should_scan, ask, entered}
use verona.Rt.ThreadState.Invariant.{Inv-thread, Answered, ask-Answered, flip, allowed, epoch_of}
use verona.Rt.ThreadState.Reachable.{Reach-Inv}

ne_none_of_Answered :
    (n : ℕ) (s : System) (i : ℕ) (t : Thread) (o : Option (ThreadState × State))
    → Answered n s.threads i (entered t o)
    → o ≢ none
unfolding entered
ne_none_of_Answered n s i t none a h = a
ne_none_of_Answered n s i t (some r) a h = cc

sweep_phase :
    (g : State) (r : Bool) (l : State)
    → allowed g r sweep ≡ true
    → allowed g r l ≡ true
    → should_scan l ≡ false
unfolding allowed should_scan
sweep_phase sweep r l a b = ground arith
sweep_phase _ r l a b = ground arith

scan_epoch : (g l : State) (e : EpochMark) → should_scan l ≡ true → epoch_of g e l ≡ flip e
unfolding should_scan epoch_of
scan_epoch sweep l e h = ground arith
scan_epoch _ l e h = ground arith

flip_cases : (e : EpochMark) → (flip e ≡ epoch_a) ⊎ (flip e ≡ epoch_b)
flip_cases e = ground arith

module _ {n : ℕ} (several : 1 < n) (few : n < 2 ^ 64) {s : System} (r : Reach n s) where
  -- With at least two threads, and fewer than 2^64, no question that a thread asks the global state
  -- in a reachable state of the protocol ends in `abort()`.
  pub next_never_aborts :
      (i : ℕ) (t : Thread) → get_elem? s.threads i ≡ some t → next s.pool t.state n ≢ none
  unfolding ask
  next_never_aborts i t at =
      let (e, inv) = Reach-Inv several few r in
      ne_none_of_Answered n s i t _ (ask-Answered inv i at)

  -- With at least two threads, and fewer than 2^64: while a thread is in `Sweep`, collecting cowns,
  -- no thread is in a state in which it scans.
  pub sweep_excludes_scan :
      (i j : ℕ) (t u : Thread)
      → get_elem? s.threads i ≡ some t
      → get_elem? s.threads j ≡ some u
      → t.state ≡ sweep
      → should_scan u.state ≡ false
  sweep_excludes_scan i j t u at au h =
      let (e, inv) = Reach-Inv several few r in
      let a : allowed s.pool.state s.pool.retracted sweep ≡ true =
        rw (← h) (Inv-thread inv i at).state_allowed in
      sweep_phase s.pool.state s.pool.retracted u.state a (Inv-thread inv j au).state_allowed

  -- With at least two threads, and fewer than 2^64: any two threads that scan send in the same
  -- epoch, which is one of the two proper epochs.
  pub scanners_agree :
      (i j : ℕ) (t u : Thread)
      → get_elem? s.threads i ≡ some t
      → get_elem? s.threads j ≡ some u
      → should_scan t.state ≡ true
      → should_scan u.state ≡ true
      → (t.send_epoch ≡ u.send_epoch) × ((t.send_epoch ≡ epoch_a) ⊎ (t.send_epoch ≡ epoch_b))
  scanners_agree i j t u at au h k =
      let (e, inv) = Reach-Inv several few r in
      let p = (Inv-thread inv i at).sends ∙ scan_epoch s.pool.state t.state e h in
      let q = (Inv-thread inv j au).sends ∙ scan_epoch s.pool.state u.state e k in
      (p ∙ sym q, rw p (flip_cases e))
