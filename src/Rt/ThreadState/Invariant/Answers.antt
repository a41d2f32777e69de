-- ===== src/Rt/ThreadState/Invariant/Answers.antt =====
-- A round of `ld_protocol` at one thread: an answer with a vote, and one without.
use verona.Prelude.{
  ℕ, suc, ◌≡◌, sym, ◌∙◌, inl, inr, true, false, Option, none, some, List, arith, ◌==◌, Bool-cases,
  eq_of_==, ne_of_==, bit, get_elem?, set,
}
use verona.Rt.EpochMark.{EpochMark}
use verona.Rt.ThreadState.Defs.{State, ThreadState, count_vote}
use verona.Rt.ThreadState.Thread.{Thread, enter, entered}
use verona.Rt.ThreadState.Invariant.Defs.{Fits, has_voted, Inv}
use verona.Rt.ThreadState.Invariant.Ballot.{stay-Inv, ballot-Inv, decide-Inv}

-- What holds of an answer: there is one, and the invariant holds after it, in some epoch.
abbrev pub Answered : ℕ → List Thread → ℕ → Option (ThreadState × Thread) → Type 0
Answered n threads i none = ⊥
Answered n threads i (some (ts, t)) = (e : EpochMark) × Inv n e ts (set threads i t)

module _ {n : ℕ} {e : EpochMark} {ts : ThreadState} {threads : List Thread}
    (inv : Inv n e ts threads) (i : ℕ) {t : Thread} (at : get_elem? threads i ≡ some t) where
  count_vote-suc : count_vote ts ≡ suc ts.vote_yes
  unfolding count_vote
  count_vote-suc = omega (arith, inv.undecided, inv.few)

  -- A vote `r`: counted, and the thread enters `mid`; or the last one, and it enters `end` under `ts'`.
  pub ballot-Answered :
      (e' : EpochMark) (ts' : ThreadState) (mid end : State) (r : ThreadState × State)
      → ((count_vote ts == n) ≡ true → r ≡ (ts', end))
      → ((count_vote ts == n) ≡ false → r ≡ (record ts { vote_yes = count_vote ts }, mid))
      → has_voted ts.state t ≡ false
      → has_voted ts.state (enter mid t) ≡ true
      → Fits ts.state ts.retracted e (enter mid t)
      → ((x : Thread)
          → Fits ts.state ts.retracted e x
          → has_voted ts.state x ≡ true
          → Fits ts'.state ts'.retracted e' x × (has_voted ts'.state x ≡ false))
      → Fits ts'.state ts'.retracted e' (enter end t)
      → ts'.vote_yes ≡ bit (has_voted ts'.state (enter end t))
      → Answered n threads i (entered t (some r))
  unfolding entered
  ballot-Answered e' ts' mid end r won counted before after fit pass fit' votes' =
      elim (Bool-cases (count_vote ts == n)) [
        | inl last ↦ rw (won last) (
          e',
          decide-Inv inv i at e' ts' (enter mid t) (enter end t) before after fit
              (sym count_vote-suc ∙ eq_of_== _ _ last) pass fit' votes',
        )
        | inr more ↦
            rw (counted more, count_vote-suc)
              (
                e,
                ballot-Inv inv i at (enter mid t) fit before after
                    (omega (arith, inv.undecided, count_vote-suc, ne_of_== _ _ more)),
              )
      ]

  -- An answer without a vote.
  pub stay-Answered :
      (s : State)
      → Fits ts.state ts.retracted e (enter s t)
      → has_voted ts.state (enter s t) ≡ has_voted ts.state t
      → Answered n threads i (entered t (some (ts, s)))
  unfolding entered
  stay-Answered s fit same = (e, stay-Inv inv i at (enter s t) fit same)
