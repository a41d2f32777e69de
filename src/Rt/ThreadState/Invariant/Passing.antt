-- ===== src/Rt/ThreadState/Invariant/Passing.antt =====
-- When the last vote is in, the threads that have voted fit the next global state.
use verona.Prelude.{◌≡◌, Bool, true, false, arith}
use verona.Rt.EpochMark.{EpochMark}
use verona.Rt.ThreadState.Defs.{
  State, not_in_ld, pre_scan, scan, all_in_scan, believe_done, really_done, sweep,
}
use verona.Rt.ThreadState.Thread.{Thread}
use verona.Rt.ThreadState.Invariant.Defs.{
  Fits, has_voted, flip, allowed, voted, epoch_of, has_saved,
}

abbrev pub Passes : State → Bool → EpochMark → State → Bool → EpochMark → Type 0
Passes g r e g' r' e' =
    (x : Thread) → Fits g r e x → has_voted g x ≡ true → Fits g' r' e' x × (has_voted g' x ≡ false)

module _ (r : Bool) (e : EpochMark) where
  pub pre_scan-Passes : Passes pre_scan r e scan r e
  unfolding allowed voted epoch_of has_saved
  pre_scan-Passes x f v = ground arith

  pub scan-Passes : Passes scan r e all_in_scan false e
  unfolding allowed voted epoch_of has_saved
  scan-Passes x f v = ground arith

  pub all_in_scan-Passes : Passes all_in_scan r e believe_done r e
  unfolding allowed voted epoch_of has_saved
  all_in_scan-Passes x f v = ground arith

  pub believe_done-Passes : (r' : Bool) → Passes believe_done r e really_done r' e
  unfolding allowed voted epoch_of has_saved
  believe_done-Passes r' x f v = ground arith

  pub retracted-Passes : Passes really_done true e all_in_scan false e
  unfolding allowed voted epoch_of has_saved
  retracted-Passes x f v = ground arith

  pub confirmed-Passes : Passes really_done false e sweep false e
  unfolding allowed voted epoch_of has_saved
  confirmed-Passes x f v = ground arith

  pub sweep-Passes : Passes sweep r e not_in_ld r (flip e)
  unfolding allowed voted epoch_of has_saved
  sweep-Passes x f v = ground arith
