-- ===== src/Rt/Behaviours/Order/Bodies.antt =====
-- The cowns that a thread acquires for a body, and those that it gives back, keep the order.
use verona.Prelude.{
  ℕ, ◌≡◌, ◌≢◌, sym, List, [], Bool, true, false, ◌==◌, Option, update, update-each, arith, inl, inr,
  Bool-cases, eq_of_==, ==_self, subst,
}
use verona.Rt.Behaviours.Defs.{
  Request, Turn, running, stepping, releasing, System, turn, schedule, count_down, fetch_sub,
}
use verona.Rt.Behaviours.Holding.{
  waiting, hand, body, taken, acquired, released, Ghost, own, put, Inv,
}
use verona.Rt.Behaviours.Order.Defs.{
  Times, handles, works_for, ReleasesAll, ReleasesAll-frame, Ordered,
}
use verona.Rt.Behaviours.Order.Turns.{still_handles, still_steps, still_works, runs_now}

module _ {requests : ℕ → List Request} {s : System} {g : Ghost} {o : Times} (inv : Inv requests s g)
    (ord : Ordered requests s g o) (t b c : ℕ) where
  abbrev next_ghost : (ℕ → Option ℕ) → Ghost
  next_ghost ru = record (own c (body b) (put b c acquired g)) { runner = ru }

  pub stepped-Ordered :
      (y : Turn) (ru : ℕ → Option ℕ)
      → s.turns t ≡ stepping c b
      → g.owner c ≡ hand t
      → g.stage b c ≡ taken
      → s.exec_count_down b ≢ 0
      → (fetch_sub (s.exec_count_down b) ≡ 0 → works_for b y ≡ true)
      → ReleasesAll (next_ghost ru) y
      → Ordered requests (turn t y (count_down b s)) (next_ghost ru) o
  unfolding count_down
  stepped-Ordered y ru e mine was pos works hr = record {
    unsent_pending = λ b' c' m a. ord.unsent_pending b' c' m (ground (arith, a, was));
    sender_claims = λ b' c' k. ord.sender_claims b' c' (ground (arith, k));
    hand_handles = λ t' c' k.
        still_handles inv ord t y t' c' (λ h. absurd (ground (arith, k, here c' h)))
          (ground (arith, k));
    taken_steps = λ b' c' k.
        still_steps inv ord t y b' c' (λ d. absurd (ground (arith, d, e, k))) (ground (arith, k));
    body_acquired = λ b' c' k. ground (arith, k, ord.body_acquired b' c');
    complete_works = works_on;
    releases_all =
        update-each (λ _ x. ReleasesAll (next_ghost ru) x) s.turns t y hr
          (λ t' ne.
            ReleasesAll-frame requests s g (next_ghost ru) t' (s.turns t')
              (λ b' c' z k. ground (arith, k, z, pos)) (inv.turn_ok t') (ord.releases_all t'));
    keeper_holds = ord.keeper_holds;
    lock_kept = ord.lock_kept;
    stamped = ord.stamped;
    older = λ b0 b' c' m m' k mem lt. ord.older b0 b' c' m m' k mem (ground (arith, lt, was));
    in_order = ord.in_order;
    locks_in_order = ord.locks_in_order;
  }
    where
      here : (c' : ℕ) → handles c' (s.turns t) ≡ true → c' ≡ c
      here c' h = eq_of_== c' c (rw e at h)

      works_on :
          (b' c' : ℕ)
          → (next_ghost ru).stage b' c' ≡ acquired
          → update s.exec_count_down b (fetch_sub (s.exec_count_down b)) b' ≡ 0
          → (t' : ℕ) × (works_for b' (update s.turns t y t') ≡ true)
      works_on b' c' k z = elim (Bool-cases (b' == b)) [
        | inl d ↦ (
          t,
          rw (==_self t)
              (subst (λ n. works_for n y ≡ true) (sym (eq_of_== b' b d)) (works (rw d at z))),
        )
        | inr d ↦
            still_works inv ord t y b' c' (λ h. let stuck : false ≡ true = rw e at h in cc)
              (ground (arith, k, d)) (rw d at z)
      ]

  -- A cown that is acquired is given back, as the thread goes on to `y`.
  module _ (had : g.stage b c ≡ acquired) where
    was : g.owner c ≡ body b
    was = inv.owned b c had

    pub given_back-Ordered :
        (y : Turn)
        → ((c' : ℕ) → handles c' (s.turns t) ≡ false)
        → ((b' c' : ℕ) → s.turns t ≢ stepping c' b')
        → ((b' : ℕ) → works_for b' (s.turns t) ≡ true → works_for b' y ≡ true)
        → ReleasesAll (own c waiting (put b c released g)) y
        → Ordered requests (turn t y (schedule c s)) (own c waiting (put b c released g)) o
    unfolding schedule
    given_back-Ordered y nh ns hw hr = record {
      unsent_pending = λ b' c' m a. ord.unsent_pending b' c' m (ground (arith, a, had));
      sender_claims = λ b' c' k. ord.sender_claims b' c' (ground (arith, k));
      hand_handles = λ t' c' k.
          still_handles inv ord t y t' c' (λ h. absurd (ground (arith, h, nh c')))
            (ground (arith, k));
      taken_steps =
          λ b' c' k. still_steps inv ord t y b' c' (λ d. absurd (ns b' c' d)) (ground (arith, k));
      body_acquired = λ b' c' k. ground (arith, k, ord.body_acquired b' c');
      complete_works = λ b' c' k z. still_works inv ord t y b' c' (hw b') (ground (arith, k)) z;
      releases_all =
          update-each (λ _ x. ReleasesAll (own c waiting (put b c released g)) x) s.turns t y hr
            (λ t' ne.
              ReleasesAll-frame requests s g (own c waiting (put b c released g)) t' (s.turns t')
                (λ b' c' z k. ground (arith, k)) (inv.turn_ok t') (ord.releases_all t'));
      keeper_holds = ord.keeper_holds;
      lock_kept = ord.lock_kept;
      stamped = ord.stamped;
      older = λ b0 b' c' m m' k mem lt. ord.older b0 b' c' m m' k mem (ground (arith, lt, had));
      in_order = ord.in_order;
      locks_in_order = ord.locks_in_order;
    }

    pub kept-Ordered :
        {after : Bool}
        → s.turns t ≡ releasing c b after []
        → Ordered requests (turn t (running c) s) (own c (hand t) (put b c released g)) o
    kept-Ordered {after} e = record {
      unsent_pending = λ b' c' m a. ord.unsent_pending b' c' m (ground (arith, a, had));
      sender_claims = λ b' c' k. ord.sender_claims b' c' (ground (arith, k));
      hand_handles = λ t' c' k. runs_now inv ord t c c' t' nothing k;
      taken_steps = λ b' c' k.
          still_steps inv ord t (running c) b' c' (λ d. absurd (ground (arith, d, e)))
            (ground (arith, k));
      body_acquired = λ b' c' k. ground (arith, k, ord.body_acquired b' c');
      complete_works = λ b' c' k z.
          still_works inv ord t (running c) b' c' (λ h. absurd (done b' c' k (rw e at h)))
            (ground (arith, k)) z;
      releases_all =
          update-each (λ _ x. ReleasesAll (own c (hand t) (put b c released g)) x) s.turns t
            (running c) tt
            (λ t' ne.
              ReleasesAll-frame requests s g (own c (hand t) (put b c released g)) t' (s.turns t')
                (λ b' c' z k. ground (arith, k)) (inv.turn_ok t') (ord.releases_all t'));
      keeper_holds = ord.keeper_holds;
      lock_kept = ord.lock_kept;
      stamped = ord.stamped;
      older = λ b0 b' c' m m' k mem lt. ord.older b0 b' c' m m' k mem (ground (arith, lt, had));
      in_order = ord.in_order;
      locks_in_order = ord.locks_in_order;
    }
      where
        nothing : (c' : ℕ) → handles c' (s.turns t) ≡ true → ⊥
        nothing c' k = let stuck : false ≡ true = rw e at k in cc

        last : (c' : ℕ) → g.stage b c' ≡ acquired → c' ≢ c → ⊥
        last c' a ne =
            let all : ReleasesAll g (releasing c b after []) =
              subst (ReleasesAll g) e (ord.releases_all t) in
            let m : false ≡ true = all c' a ne in cc

        done : (b' c' : ℕ) → (put b c released g).stage b' c' ≡ acquired → (b' == b) ≡ true → ⊥
        done b' c' k h =
            let same : b' ≡ b = eq_of_== b' b h in
            last c' (ground (arith, k, same)) (λ f. ground (arith, k, same, f))
