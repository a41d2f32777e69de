-- ===== src/Rt/ThreadState/Invariant/Rounds.antt =====
-- Every round of `ld_protocol` is answered, and keeps the invariant.
use verona.Prelude.{ℕ, ◌≡◌, refl, Bool, true, false, some, List, arith, get_elem?}
use verona.Rt.EpochMark.{EpochMark}
use verona.Rt.ThreadState.Defs.{
  State, not_in_ld, want_ld, pre_scan, scan, all_in_scan, believe_done_vote, believe_done_voted,
  believe_done, believe_done_confirm, believe_done_retract, believe_done_ack, really_done,
  really_done_confirm, really_done_retract, sweep, finished, ThreadState, reset, reset_one,
  dispatch,
}
use verona.Rt.ThreadState.Thread.{Thread, enter, entered, ask}
use verona.Rt.ThreadState.Invariant.Defs.{Inv, flip, allowed, voted, epoch_of, has_saved}
use verona.Rt.ThreadState.Invariant.Ballot.{Inv-thread, shift-Inv}
use verona.Rt.ThreadState.Invariant.Answers.{Answered, ballot-Answered, stay-Answered}
use verona.Rt.ThreadState.Invariant.Passing.{
  pre_scan-Passes, scan-Passes, all_in_scan-Passes, believe_done-Passes, retracted-Passes,
  confirmed-Passes, sweep-Passes,
}

abbrev pool : State → Bool → (v a b : ℕ) → ThreadState
pool g r v a b = record {
  state = g;
  retracted = r;
  vote_yes = v;
  active_threads = a;
  barrier_count = b;
}

abbrev thread : State → (send prev : EpochMark) → ℕ → Bool → Thread
thread l send prev k u = record {
  state = l;
  send_epoch = send;
  prev_epoch = prev;
  n_ld_tokens = k;
  scheduled_unscanned_cown = u;
}

-- The first thread that wants a cycle starts it.
begin-Inv :
    {n v a b : ℕ} {r : Bool} {e : EpochMark} {threads : List Thread}
    → Inv n e (pool not_in_ld r v a b) threads
    → Inv n e (pool pre_scan r v a b) threads
unfolding allowed voted epoch_of
begin-Inv inv = shift-Inv _ inv refl (λ x f. ground arith)

-- A retraction is recorded.
retract-Inv :
    {n v a b : ℕ} {r : Bool} {e : EpochMark} {threads : List Thread}
    → Inv n e (pool believe_done r v a b) threads
    → Inv n e (pool believe_done true v a b) threads
unfolding allowed voted epoch_of
retract-Inv inv = shift-Inv _ inv refl (λ x f. ground arith)

dispatch-Answered :
    (g l : State) (r : Bool) (v a b k n : ℕ) (u : Bool) (send prev e : EpochMark)
    (threads : List Thread) (i : ℕ)
    → Inv n e (pool g r v a b) threads
    → get_elem? threads i ≡ some (thread l send prev k u)
    → Answered n threads i (entered (thread l send prev k u) (dispatch g l (pool g r v a b) n))
unfolding dispatch reset reset_one allowed voted epoch_of has_saved enter
dispatch-Answered not_in_ld not_in_ld r v a b k n u send prev e threads i inv at =
    let f = Inv-thread inv i at in stay-Answered inv i at not_in_ld (ground arith) refl
dispatch-Answered not_in_ld finished r v a b k n u send prev e threads i inv at =
    let f = Inv-thread inv i at in stay-Answered inv i at not_in_ld (ground arith) refl
dispatch-Answered not_in_ld want_ld r v a b k n u send prev e threads i inv at =
    let f = Inv-thread (begin-Inv inv) i at in
    ballot-Answered (begin-Inv inv) i at (e) (reset_one scan (pool pre_scan r v a b)) pre_scan scan
      _ (λ h. rw h) (λ h. rw h) refl refl (ground arith) (pre_scan-Passes r e) (ground arith) refl
dispatch-Answered pre_scan not_in_ld r v a b k n u send prev e threads i inv at =
    let f = Inv-thread inv i at in
    ballot-Answered inv i at (e) (reset_one scan (pool pre_scan r v a b)) pre_scan scan _
      (λ h. rw h) (λ h. rw h) refl refl (ground arith) (pre_scan-Passes r e) (ground arith) refl
dispatch-Answered pre_scan want_ld r v a b k n u send prev e threads i inv at =
    let f = Inv-thread inv i at in
    ballot-Answered inv i at (e) (reset_one scan (pool pre_scan r v a b)) pre_scan scan _
      (λ h. rw h) (λ h. rw h) refl refl (ground arith) (pre_scan-Passes r e) (ground arith) refl
dispatch-Answered pre_scan finished r v a b k n u send prev e threads i inv at =
    let f = Inv-thread inv i at in
    ballot-Answered inv i at (e) (reset_one scan (pool pre_scan r v a b)) pre_scan scan _
      (λ h. rw h) (λ h. rw h) refl refl (ground arith) (pre_scan-Passes r e) (ground arith) refl
dispatch-Answered pre_scan pre_scan r v a b k n u send prev e threads i inv at =
    let f = Inv-thread inv i at in stay-Answered inv i at pre_scan (ground arith) refl
dispatch-Answered scan pre_scan r v a b k n u send prev e threads i inv at =
    let f = Inv-thread inv i at in
    ballot-Answered inv i at (e) (reset all_in_scan (pool scan r v a b)) scan all_in_scan _
      (λ h. rw h) (λ h. rw h) refl refl (ground arith) (scan-Passes r e) (ground arith) refl
dispatch-Answered scan scan r v a b k n u send prev e threads i inv at =
    let f = Inv-thread inv i at in stay-Answered inv i at scan (ground arith) refl
dispatch-Answered all_in_scan scan r v a b k n u send prev e threads i inv at =
    let f = Inv-thread inv i at in stay-Answered inv i at all_in_scan (ground arith) refl
dispatch-Answered all_in_scan all_in_scan r v a b k n u send prev e threads i inv at =
    let f = Inv-thread inv i at in stay-Answered inv i at all_in_scan (ground arith) refl
dispatch-Answered all_in_scan really_done_retract r v a b k n u send prev e threads i inv at =
    let f = Inv-thread inv i at in stay-Answered inv i at all_in_scan (ground arith) refl
dispatch-Answered all_in_scan believe_done_vote r v a b k n u send prev e threads i inv at =
    let f = Inv-thread inv i at in
    ballot-Answered inv i at (e) (reset believe_done (pool all_in_scan r v a b)) believe_done_voted
      believe_done _ (λ h. rw h) (λ h. rw h) refl refl (ground arith) (all_in_scan-Passes r e)
      (ground arith) (ground arith)
dispatch-Answered all_in_scan believe_done_voted r v a b k n u send prev e threads i inv at =
    let f = Inv-thread inv i at in stay-Answered inv i at believe_done_voted (ground arith) refl
dispatch-Answered believe_done believe_done_voted r v a b k n u send prev e threads i inv at =
    let f = Inv-thread inv i at in stay-Answered inv i at believe_done (ground arith) (ground arith)
dispatch-Answered believe_done believe_done_confirm r v a b k n u send prev e threads i inv at =
    let f = Inv-thread inv i at in
    ballot-Answered inv i at (e) (reset really_done (pool believe_done r v a b)) believe_done_ack
      really_done _ (λ h. rw h) (λ h. rw h) refl refl (ground arith) (believe_done-Passes r e r)
      (ground arith) refl
dispatch-Answered believe_done believe_done_retract r v a b k n u send prev e threads i inv at =
    let f = Inv-thread (retract-Inv inv) i at in
    ballot-Answered (retract-Inv inv) i at (e) (reset really_done (pool believe_done true v a b))
      believe_done_ack really_done _ (λ h. rw h) (λ h. rw h) refl refl (ground arith)
      (believe_done-Passes true e true) (ground arith) refl
dispatch-Answered believe_done believe_done_ack r v a b k n u send prev e threads i inv at =
    let f = Inv-thread inv i at in stay-Answered inv i at believe_done_ack (ground arith) refl
dispatch-Answered really_done believe_done_ack true v a b k n u send prev e threads i inv at =
    let f = Inv-thread inv i at in
    ballot-Answered inv i at (e) (reset all_in_scan (pool really_done true v a b))
      really_done_retract really_done_retract _ (λ h. rw h) (λ h. rw h) refl refl (ground arith)
      (retracted-Passes true e) (ground arith) refl
dispatch-Answered really_done believe_done_ack false v a b k n u send prev e threads i inv at =
    let f = Inv-thread inv i at in
    ballot-Answered inv i at (e) (reset sweep (pool really_done false v a b)) really_done_confirm
      really_done_confirm _ (λ h. rw h) (λ h. rw h) refl refl (ground arith)
      (confirmed-Passes true e) (ground arith) refl
dispatch-Answered really_done really_done true v a b k n u send prev e threads i inv at =
    let f = Inv-thread inv i at in
    ballot-Answered inv i at (e) (reset all_in_scan (pool really_done true v a b))
      really_done_retract really_done_retract _ (λ h. rw h) (λ h. rw h) refl refl (ground arith)
      (retracted-Passes true e) (ground arith) refl
dispatch-Answered really_done really_done false v a b k n u send prev e threads i inv at =
    let f = Inv-thread inv i at in
    ballot-Answered inv i at (e) (reset sweep (pool really_done false v a b)) really_done_confirm
      really_done_confirm _ (λ h. rw h) (λ h. rw h) refl refl (ground arith)
      (confirmed-Passes true e) (ground arith) refl
dispatch-Answered really_done really_done_confirm r v a b k n u send prev e threads i inv at =
    let f = Inv-thread inv i at in stay-Answered inv i at really_done_confirm (ground arith) refl
dispatch-Answered really_done really_done_retract r v a b k n u send prev e threads i inv at =
    let f = Inv-thread inv i at in stay-Answered inv i at really_done_retract (ground arith) refl
dispatch-Answered sweep really_done_confirm r v a b k n u send prev e threads i inv at =
    let f = Inv-thread inv i at in stay-Answered inv i at sweep (ground arith) refl
dispatch-Answered sweep sweep r v a b k n u send prev e threads i inv at =
    let f = Inv-thread inv i at in
    ballot-Answered inv i at (flip e) (reset not_in_ld (pool sweep r v a b)) finished not_in_ld _
      (λ h. rw h) (λ h. rw h) refl refl (ground arith) (sweep-Passes r e) (ground arith) refl
dispatch-Answered sweep finished r v a b k n u send prev e threads i inv at =
    let f = Inv-thread inv i at in stay-Answered inv i at finished (ground arith) refl
dispatch-Answered g l r v a b k n u send prev e threads i inv at =
    let f = Inv-thread inv i at in cc f.state_allowed

-- In a state that the invariant allows, no answer is `abort()`, and the invariant is kept.
pub ask-Answered :
    {n : ℕ} {e : EpochMark} {ts : ThreadState} {threads : List Thread}
    → Inv n e ts threads
    → (i : ℕ) {t : Thread} → get_elem? threads i ≡ some t
    → Answered n threads i (ask ts t n)
unfolding ask
ask-Answered {n} {e} {ts} {threads} inv i {t} at =
    dispatch-Answered ts.state t.state ts.retracted ts.vote_yes ts.active_threads ts.barrier_count
      t.n_ld_tokens n t.scheduled_unscanned_cown t.send_epoch t.prev_epoch e threads i inv at
