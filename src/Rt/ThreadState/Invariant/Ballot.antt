-- ===== src/Rt/ThreadState/Invariant/Ballot.antt =====
-- One thread changes: without a vote, with a vote, and with the vote that decides.
use verona.Prelude.{
  ℕ, suc, ◌<◌, ◌≡◌, sym, ◌∙◌, ap, true, false, some, List, arith, length, All-map, All-map₂,
  All-set, All-get_elem?, All-of_count, count, count-set, count-eq-zero, bit, bit-le, count-congr,
  set, set-set, get_elem?, get_elem?-set, length-set,
}
use verona.Rt.EpochMark.{EpochMark}
use verona.Rt.ThreadState.Defs.{ThreadState}
use verona.Rt.ThreadState.Thread.{Thread}
use verona.Rt.ThreadState.Invariant.Defs.{Fits, has_voted, Inv}

module _ {n : ℕ} {e : EpochMark} {ts : ThreadState} {threads : List Thread}
    (inv : Inv n e ts threads) (i : ℕ) {t : Thread} (at : get_elem? threads i ≡ some t) where
  pub Inv-thread : Fits ts.state ts.retracted e t
  Inv-thread = All-get_elem? _ threads i inv.fits at

  -- The thread moves on and no vote is counted.
  pub stay-Inv :
      (t' : Thread)
      → Fits ts.state ts.retracted e t'
      → has_voted ts.state t' ≡ has_voted ts.state t
      → Inv n e ts (set threads i t')
  stay-Inv t' fit same = record {
    size = length-set threads i t' ∙ inv.size;
    several = inv.several;
    few = inv.few;
    fits = All-set _ threads i t' inv.fits fit;
    votes = omega (arith, inv.votes, count-set (has_voted ts.state) threads i t t' at, ap bit same);
    undecided = inv.undecided;
  }

  -- The thread's vote is counted, and is not the last.
  pub ballot-Inv :
      (t' : Thread)
      → Fits ts.state ts.retracted e t'
      → has_voted ts.state t ≡ false
      → has_voted ts.state t' ≡ true
      → suc ts.vote_yes < n
      → Inv n e (record ts { vote_yes = suc ts.vote_yes }) (set threads i t')
  ballot-Inv t' fit before after more = record {
    size = length-set threads i t' ∙ inv.size;
    several = inv.several;
    few = inv.few;
    fits = All-set _ threads i t' inv.fits fit;
    votes = omega (
      arith,
      inv.votes,
      count-set (has_voted ts.state) threads i t t' at,
      ap bit before,
      ap bit after,
    );
    undecided = more;
  }

  -- The last vote: all threads have voted, and those that had may pass to the next state `g`.
  pub decide-Inv :
      (e' : EpochMark) (ts' : ThreadState) (mid t' : Thread)
      → has_voted ts.state t ≡ false
      → has_voted ts.state mid ≡ true
      → Fits ts.state ts.retracted e mid
      → suc ts.vote_yes ≡ n
      → ((x : Thread)
          → Fits ts.state ts.retracted e x
          → has_voted ts.state x ≡ true
          → Fits ts'.state ts'.retracted e' x × (has_voted ts'.state x ≡ false))
      → Fits ts'.state ts'.retracted e' t'
      → ts'.vote_yes ≡ bit (has_voted ts'.state t')
      → Inv n e' ts' (set threads i t')
  decide-Inv e' ts' mid t' before after fit last pass fit' votes' =
      let full : count (has_voted ts.state) (set threads i mid) ≡ length (set threads i mid) =
        omega (
          arith,
          inv.votes,
          inv.size,
          length-set threads i mid,
          count-set (has_voted ts.state) threads i t mid at,
          ap bit before,
          ap bit after,
        ) in
      let all_voted = All-of_count (has_voted ts.state) (set threads i mid) full in
      let all_fit = All-set (Fits ts.state ts.retracted e) threads i mid inv.fits fit in
      let passed = All-map₂ (λ x f v. (pass x f v).0) (set threads i mid) all_fit all_voted in
      let fresh = All-map₂ (λ x f v. (pass x f v).1) (set threads i mid) all_fit all_voted in
      let none_voted = count-eq-zero (has_voted ts'.state) (set threads i mid) fresh in
      let same = set-set threads i mid t' in
      let at' = get_elem?-set threads i t mid at in
      record {
        size = length-set threads i t' ∙ inv.size;
        several = inv.several;
        few = inv.few;
        fits = rw (← same) (All-set _ (set threads i mid) i t' passed fit');
        votes = rw (← same) (
            omega (
              arith,
              votes',
              none_voted,
              count-set (has_voted ts'.state) (set threads i mid) i mid t' at',
              ap bit (pass mid fit after).1,
            ));
        undecided = omega (arith, votes', inv.several, bit-le (has_voted ts'.state t'));
      }

-- The global state changes, the threads and the votes do not.
pub shift-Inv :
    {n : ℕ} {e : EpochMark} {ts : ThreadState} {threads : List Thread} (ts' : ThreadState)
    → Inv n e ts threads
    → ts'.vote_yes ≡ ts.vote_yes
    → ((x : Thread)
        → Fits ts.state ts.retracted e x
        → Fits ts'.state ts'.retracted e x × (has_voted ts'.state x ≡ has_voted ts.state x))
    → Inv n e ts' threads
shift-Inv {ts} {threads} ts' inv votes' pass = record {
  size = inv.size;
  several = inv.several;
  few = inv.few;
  fits = All-map (λ x f. (pass x f).0) threads inv.fits;
  votes =
      votes'
      ∙ inv.votes
      ∙ sym (
          count-congr (has_voted ts'.state) (has_voted ts.state) threads
            (All-map (λ x f. (pass x f).1) threads inv.fits));
  undecided = omega (arith, votes', inv.undecided);
}
