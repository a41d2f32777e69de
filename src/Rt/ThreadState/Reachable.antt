-- ===== src/Rt/ThreadState/Reachable.antt =====
-- The invariant holds in every state that the scheduler threads can reach.
use verona.Prelude.{
  ℕ, ◌^◌, ◌<◌, ◌≡◌, refl, sym, subst, Bool, arith, length-replicate, All-replicate, count-eq-zero,
  replicate,
}
use verona.Rt.EpochMark.{EpochMark, epoch_a}
use verona.Rt.ThreadState.Defs.{State, not_in_ld}
use verona.Rt.ThreadState.Thread.{
  Thread, request_ld, believe_done_check, System, Step, want, check, work, round, initial_thread,
  initial_pool, Reach, start, later,
}
use verona.Rt.ThreadState.Invariant.{
  Fits, has_voted, Inv, allowed, voted, epoch_of, has_saved, Inv-thread, stay-Inv, Answered,
  ask-Answered,
}

initial-Inv : (n : ℕ) → 1 < n → n < 2 ^ 64 → Inv n epoch_a initial_pool (replicate n initial_thread)
unfolding allowed voted epoch_of has_saved
initial-Inv n several few = record {
  size = length-replicate initial_thread n;
  several = several;
  few = few;
  fits =
      All-replicate initial_thread _ n
        (record { state_allowed = refl; sends = refl; saves = ground arith });
  votes = sym (count-eq-zero (has_voted not_in_ld) _ (All-replicate initial_thread _ n refl));
  undecided = omega arith;
}

abbrev SomeInv : ℕ → System → Type 0
SomeInv n s = (e : EpochMark) × Inv n e s.pool s.threads

abbrev Stays : State → Bool → EpochMark → Thread → Thread → Type 0
Stays g r e t t' = Fits g r e t' × (has_voted g t' ≡ has_voted g t)

request_ld-Stays :
    (g : State) (r : Bool) (e : EpochMark) (t : Thread)
    → Fits g r e t
    → Stays g r e t (request_ld t)
unfolding request_ld allowed voted epoch_of has_saved
request_ld-Stays not_in_ld r e t f = ground arith
request_ld-Stays _ r e t f = ground arith

believe_done_check-Stays :
    (g : State) (r : Bool) (e : EpochMark) (quiet : Bool) (t : Thread)
    → Fits g r e t
    → Stays g r e t (believe_done_check quiet t)
unfolding believe_done_check allowed voted epoch_of has_saved
believe_done_check-Stays not_in_ld r e quiet t f = ground arith
believe_done_check-Stays _ r e quiet t f = ground arith

Step-Inv : {n : ℕ} {s t : System} → Step n s t → SomeInv n s → SomeInv n t
Step-Inv (want i {t} at) (e, inv) =
    let (fit, same) = request_ld-Stays _ _ _ t (Inv-thread inv i at) in
    (e, stay-Inv inv i at (request_ld t) fit same)
Step-Inv (check i quiet {t} at) (e, inv) =
    let (fit, same) = believe_done_check-Stays _ _ _ quiet t (Inv-thread inv i at) in
    (e, stay-Inv inv i at (believe_done_check quiet t) fit same)
Step-Inv (work i tokens unscanned {t} at) (e, inv) =
    let f = Inv-thread inv i at in (e, stay-Inv inv i at _ (ground arith) refl)
Step-Inv {n} {s} (round i at answer) (e, inv) =
    subst (Answered n s.threads i) answer (ask-Answered inv i at)

pub Reach-Inv : {n : ℕ} {s : System} → 1 < n → n < 2 ^ 64 → Reach n s → SomeInv n s
Reach-Inv {n} several few start = (epoch_a, initial-Inv n several few)
Reach-Inv several few (later r st) = Step-Inv st (Reach-Inv several few r)
