-- ===== src/Rt/Behaviours/Order/Turns.antt =====
-- The steps of the threads keep the order.
use verona.Prelude.{
  ℕ, suc, ◌≡◌, ap, sym, refl, List, ◌∷◌, true, false, ◌==◌, none, some, update, update_same,
  update-each, update-forward, arith, inl, inr, Bool-cases, eq_of_==, ==_self, subst,
}
use verona.Rt.Behaviours.Defs.{
  Request, Turn, idle, running, stepping, System, turn, set_queue, schedule,
}
use verona.Rt.Behaviours.Holding.{
  Owner, nobody, waiting, hand, queued, taken, acquired, Ghost, own, put, Inv,
}
use verona.Rt.Behaviours.Order.Defs.{
  Times, handles, works_for, InOrder, ReleasesAll, ReleasesAll-frame, Ordered,
}
use verona.Rt.Behaviours.Order.Stamps.{pop-older}

abbrev hand_of : Owner → ℕ
hand_of (hand t) = t
hand_of _ = 0

module _ {requests : ℕ → List Request} {s : System} {g : Ghost} {o : Times} (inv : Inv requests s g)
    (ord : Ordered requests s g o) (t : ℕ) where
  -- What is known of the threads, when `t` goes on to `y`.
  pub still_handles :
      (y : Turn) (t' c : ℕ)
      → (handles c (s.turns t) ≡ true → handles c y ≡ true)
      → g.owner c ≡ hand t'
      → handles c (update s.turns t y t') ≡ true
  still_handles y t' c keep h =
      update-forward (λ _ x. handles c x ≡ true) s.turns t y t' keep (ord.hand_handles t' c h)

  pub still_steps :
      (y : Turn) (b c : ℕ)
      → (s.turns t ≡ stepping c b → y ≡ stepping c b)
      → g.stage b c ≡ taken
      → (t' : ℕ) × (update s.turns t y t' ≡ stepping c b)
  still_steps y b c keep h =
      let (t', at) = ord.taken_steps b c h in
      (t', update-forward (λ _ x. x ≡ stepping c b) s.turns t y t' keep at)

  pub still_works :
      (y : Turn) (b c : ℕ)
      → (works_for b (s.turns t) ≡ true → works_for b y ≡ true)
      → g.stage b c ≡ acquired
      → s.exec_count_down b ≡ 0
      → (t' : ℕ) × (works_for b (update s.turns t y t') ≡ true)
  still_works y b c keep h z =
      let (t', at) = ord.complete_works b c h z in
      (t', update-forward (λ _ x. works_for b x ≡ true) s.turns t y t' keep at)

  -- A thread that comes to run a cown, and ran none before.
  pub runs_now :
      (c c' t' : ℕ)
      → ((c0 : ℕ) → handles c0 (s.turns t) ≡ true → ⊥)
      → update g.owner c (hand t) c' ≡ hand t'
      → handles c' (update s.turns t (running c) t') ≡ true
  runs_now c c' t' nothing k = elim (Bool-cases (c' == c)) [
    | inl d ↦
        let now : hand t ≡ hand t' = rw d at k in
        let same : t' ≡ t = ap hand_of (sym now) in rw same (rw (==_self t) d)
    | inr d ↦ still_handles (running c) t' c' (λ k'. absurd (nothing c' k')) (rw d at k)
  ]

  -- A thread goes on, where nothing else changes.
  pub turn-Ordered :
      (y : Turn)
      → ((c : ℕ) → handles c (s.turns t) ≡ true → handles c y ≡ true)
      → ((b c : ℕ) → s.turns t ≡ stepping c b → y ≡ stepping c b)
      → ((b : ℕ) → works_for b (s.turns t) ≡ true → works_for b y ≡ true)
      → ReleasesAll g y
      → Ordered requests (turn t y s) g o
  turn-Ordered y hh hs hw hr = record {
    unsent_pending = ord.unsent_pending;
    sender_claims = ord.sender_claims;
    hand_handles = λ t' c h. still_handles y t' c (hh c) h;
    taken_steps = λ b c h. still_steps y b c (hs b c) h;
    body_acquired = ord.body_acquired;
    complete_works = λ b c h z. still_works y b c (hw b) h z;
    releases_all =
        update-each (λ _ x. ReleasesAll g x) s.turns t y hr (λ t' ne. ord.releases_all t');
    keeper_holds = ord.keeper_holds;
    lock_kept = ord.lock_kept;
    stamped = ord.stamped;
    older = ord.older;
    in_order = ord.in_order;
    locks_in_order = ord.locks_in_order;
  }

  pub picked-Ordered :
      (c n : ℕ)
      → s.turns t ≡ idle
      → s.scheduled c ≡ suc n
      → Ordered requests
          (turn t (running c) (record s { scheduled = update s.scheduled c n }))
          (own c (hand t) g)
          o
  picked-Ordered c n e h = record {
    unsent_pending = ord.unsent_pending;
    sender_claims = λ b' c' k. ord.sender_claims b' c' (ground (arith, k));
    hand_handles = λ t' c' k. runs_now c c' t' nothing k;
    taken_steps = λ b c' k. still_steps (running c) b c' (λ d. ground (arith, d, e)) k;
    body_acquired = λ b' c' k. ord.body_acquired b' c' (ground (arith, k));
    complete_works = λ b c' k z. still_works (running c) b c' (λ d. absurd (no_work b d)) k z;
    releases_all =
        update-each (λ _ x. ReleasesAll (own c (hand t) g) x) s.turns t (running c) tt
          (λ t' ne. ord.releases_all t');
    keeper_holds = ord.keeper_holds;
    lock_kept = ord.lock_kept;
    stamped = ord.stamped;
    older = ord.older;
    in_order = ord.in_order;
    locks_in_order = ord.locks_in_order;
  }
    where
      nothing : (c' : ℕ) → handles c' (s.turns t) ≡ true → ⊥
      nothing c' k = let stuck : false ≡ true = rw e at k in cc

      no_work : (b : ℕ) → works_for b (s.turns t) ≡ true → ⊥
      no_work b k = let stuck : false ≡ true = rw e at k in cc

  module _ (c : ℕ) (e : s.turns t ≡ running c) (mine : g.owner c ≡ hand t) where
    no_step : (b c' : ℕ) → s.turns t ≡ stepping c' b → ⊥
    no_step b c' d = ground (arith, d, e)

    no_work : (b : ℕ) → works_for b (s.turns t) ≡ true → ⊥
    no_work b k = let stuck : false ≡ true = rw e at k in cc

    handled : (c' : ℕ) → handles c' (s.turns t) ≡ true → c' ≡ c
    handled c' k = eq_of_== c' c (rw e at k)

    pub scheduled_again-Ordered : Ordered requests (turn t idle (schedule c s)) (own c waiting g) o
    unfolding schedule
    scheduled_again-Ordered = record {
      unsent_pending = ord.unsent_pending;
      sender_claims = λ b' c' k. ord.sender_claims b' c' (ground (arith, k));
      hand_handles = λ t' c' k.
          still_handles idle t' c' (λ h. absurd (ground (arith, k, handled c' h)))
            (ground (arith, k));
      taken_steps = λ b c' k. still_steps idle b c' (λ d. absurd (no_step b c' d)) k;
      body_acquired = λ b' c' k. ord.body_acquired b' c' (ground (arith, k));
      complete_works = λ b c' k z. still_works idle b c' (λ d. absurd (no_work b d)) k z;
      releases_all =
          update-each (λ _ x. ReleasesAll (own c waiting g) x) s.turns t (idle) tt
            (λ t' ne. ord.releases_all t');
      keeper_holds = ord.keeper_holds;
      lock_kept = ord.lock_kept;
      stamped = ord.stamped;
      older = ord.older;
      in_order = ord.in_order;
      locks_in_order = ord.locks_in_order;
    }

    pub slept-Ordered : Ordered requests (turn t idle (set_queue c none s)) (own c nobody g) o
    unfolding set_queue
    slept-Ordered = record {
      unsent_pending = ord.unsent_pending;
      sender_claims = λ b' c' k. ord.sender_claims b' c' (ground (arith, k));
      hand_handles = λ t' c' k.
          still_handles idle t' c' (λ h. absurd (ground (arith, k, handled c' h)))
            (ground (arith, k));
      taken_steps = λ b c' k. still_steps idle b c' (λ d. absurd (no_step b c' d)) k;
      body_acquired = λ b' c' k. ord.body_acquired b' c' (ground (arith, k));
      complete_works = λ b c' k z. still_works idle b c' (λ d. absurd (no_work b d)) k z;
      releases_all =
          update-each (λ _ x. ReleasesAll (own c nobody g) x) s.turns t (idle) tt
            (λ t' ne. ord.releases_all t');
      keeper_holds = ord.keeper_holds;
      lock_kept = ord.lock_kept;
      stamped = ord.stamped;
      older = ord.older;
      in_order =
          update-each (λ _ q. InOrder requests o.stamp q) s.queue c none tt
            (λ c' ne. ord.in_order c');
      locks_in_order = ord.locks_in_order;
    }

    now_steps :
        (b b' c' : ℕ)
        → (put b c taken g).stage b' c' ≡ taken
        → (t' : ℕ) × (update s.turns t (stepping c b) t' ≡ stepping c' b')
    now_steps b b' c' k =
        let old : g.stage b' c' ≡ taken
            → (t' : ℕ) × (update s.turns t (stepping c b) t' ≡ stepping c' b') =
          still_steps (stepping c b) b' c' (λ d. absurd (no_step b' c' d)) in
        elim (Bool-cases (b' == b)) [
          | inr d ↦ old (rw d at k)
          | inl d ↦ elim (Bool-cases (c' == c)) [
            | inr f ↦ old (ground (arith, k, f))
            | inl f ↦
                rw (eq_of_== c' c f, eq_of_== b' b d) (t, update_same s.turns t (stepping c b))
          ]
        ]

    pub taken-Ordered :
        (b : ℕ) (q : List ℕ)
        → s.queue c ≡ some (b ∷ q)
        → Ordered requests (turn t (stepping c b) (set_queue c (some q) s)) (put b c taken g) o
    unfolding set_queue
    taken-Ordered b q eq =
        let was : g.stage b c ≡ queued = ground (arith, inv.in_queue b c, eq) in
        record {
          unsent_pending = λ b' c' m a. ord.unsent_pending b' c' m (ground (arith, a, was));
          sender_claims = ord.sender_claims;
          hand_handles = λ t' c' k. still_handles (stepping c b) t' c' (λ h. rw e at h) k;
          taken_steps = λ b' c' k. now_steps b b' c' k;
          body_acquired = λ b' c' k. ground (arith, ord.body_acquired b' c' k, was);
          complete_works = λ b' c' k z.
              still_works (stepping c b) b' c' (λ d. absurd (no_work b' d)) (ground (arith, k)) z;
          releases_all =
              update-each (λ _ x. ReleasesAll (put b c taken g) x) s.turns t (stepping c b) tt
                (λ t' ne.
                  ReleasesAll-frame requests s g (put b c taken g) t' (s.turns t')
                    (λ b' c' z k. ground (arith, k)) (inv.turn_ok t') (ord.releases_all t'));
          keeper_holds = ord.keeper_holds;
          lock_kept = ord.lock_kept;
          stamped = ord.stamped;
          older = pop-older inv ord b c q taken eq refl;
          in_order =
              update-each (λ _ q'. InOrder requests o.stamp q') s.queue c (some q)
                ((subst (InOrder requests o.stamp) eq (ord.in_order c)).1)
                (λ c' ne. ord.in_order c');
          locks_in_order = ord.locks_in_order;
        }
