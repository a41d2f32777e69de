-- ===== src/Rt/ThreadState/Invariant/Defs.antt =====
-- The invariant of the leak-detector protocol.
use verona.Prelude.{
  ℕ, ◌^◌, ◌<◌, ◌≡◌, Bool, true, false, not, List, if◌then◌else◌, length, All, count,
}
use verona.Rt.EpochMark.{EpochMark, epoch_none, epoch_a, epoch_b, mark_eq}
use verona.Rt.ThreadState.Defs.{
  State, not_in_ld, want_ld, pre_scan, scan, all_in_scan, believe_done_vote, believe_done_voted,
  believe_done, believe_done_confirm, believe_done_retract, believe_done_ack, really_done,
  really_done_confirm, really_done_retract, sweep, finished, ThreadState,
}
use verona.Rt.ThreadState.Thread.{Thread}

-- The states that a thread may be in under the global state; the flag is `retracted`.
unfoldable pub allowed : State → Bool → State → Bool
allowed not_in_ld r not_in_ld = true
allowed not_in_ld r want_ld = true
allowed not_in_ld r finished = true
allowed pre_scan r not_in_ld = true
allowed pre_scan r want_ld = true
allowed pre_scan r finished = true
allowed pre_scan r pre_scan = true
allowed scan r pre_scan = true
allowed scan r scan = true
allowed all_in_scan r scan = true
allowed all_in_scan r all_in_scan = true
allowed all_in_scan r really_done_retract = true
allowed all_in_scan r believe_done_vote = true
allowed all_in_scan r believe_done_voted = true
allowed believe_done r believe_done_voted = true
allowed believe_done r believe_done_confirm = true
allowed believe_done r believe_done_retract = true
allowed believe_done r believe_done_ack = true
allowed really_done r believe_done_ack = true
allowed really_done r really_done = true
allowed really_done r really_done_confirm = not r
allowed really_done r really_done_retract = r
allowed sweep r really_done_confirm = true
allowed sweep r sweep = true
allowed sweep r finished = true
allowed _ r _ = false

-- The threads whose vote is counted under the global state.
unfoldable pub voted : State → State → Bool
voted pre_scan pre_scan = true
voted scan scan = true
voted all_in_scan believe_done_voted = true
voted believe_done believe_done_ack = true
voted really_done really_done_confirm = true
voted really_done really_done_retract = true
voted sweep finished = true
voted _ _ = false

-- The other of the two epochs, as `enter_scan` chooses it.
abbrev pub flip : EpochMark → EpochMark
flip e = if mark_eq e epoch_b then epoch_a else epoch_b

-- The epoch that a thread sends in, when the cycle began in epoch `e`.
unfoldable pub epoch_of : State → EpochMark → State → EpochMark
epoch_of g e not_in_ld = e
epoch_of g e want_ld = e
epoch_of sweep e finished = flip e
epoch_of g e finished = e
epoch_of g e pre_scan = epoch_none
epoch_of g e _ = flip e

-- Whether a thread has saved the epoch in which the cycle began.
unfoldable pub has_saved : State → Bool
has_saved not_in_ld = false
has_saved want_ld = false
has_saved finished = false
has_saved _ = true

pub record Fits (g : State) (r : Bool) (e : EpochMark) (t : Thread) : Type 0 where
  pub state_allowed : allowed g r t.state ≡ true
  pub sends : t.send_epoch ≡ epoch_of g e t.state
  pub saves : has_saved t.state ≡ true → t.prev_epoch ≡ e

abbrev pub has_voted : State → Thread → Bool
has_voted g t = voted g t.state

pub record Inv (n : ℕ) (e : EpochMark) (ts : ThreadState) (threads : List Thread) : Type 0 where
  pub size : length threads ≡ n
  pub several : 1 < n
  pub few : n < 2 ^ 64
  pub fits : All (Fits ts.state ts.retracted e) threads
  pub votes : ts.vote_yes ≡ count (has_voted ts.state) threads
  pub undecided : ts.vote_yes < n
