-- ===== src/Rt/Behaviours/Order/Sends.antt =====
-- Messages that are sent, and cowns that are found asleep, keep the order.
use verona.Prelude.{
  ℕ, ◌<◌, ◌≡◌, ◌≢◌, ◌++◌, ap, sym, refl, ◌∙◌, List, [], ◌∷◌, Bool, true, ◌==◌, Option, some, update,
  update-each, update-forward, update-back, arith, inl, inr, Bool-cases, eq_of_==, ne_of_==,
  ==_self, ==_ne, subst,
}
use verona.Rt.Behaviours.Defs.{
  Request, sending, sent, claimed, returned, System, call, set_queue, schedule, count_down,
  fetch_sub,
}
use verona.Rt.Behaviours.Holding.{
  Owner, waiting, sender, hand, body, away, queued, acquired, Ghost, own, put, member, Above, Inv,
}
use verona.Rt.Behaviours.Order.Defs.{
  Times, several, keeps_lock, pending, claims, committed, level, Chain, InOrder, LocksInOrder,
  Ordered, ReleasesAll-frame,
}
use verona.Rt.Behaviours.Order.Calls.{kept_after, committed_before}
use verona.Rt.Behaviours.Order.Stamps.{pending_keeps, Chain-snoc, pop-older}

module _ {requests : ℕ → List Request} {s : System} {g : Ghost} {o : Times} (inv : Inv requests s g)
    (ord : Ordered requests s g o) (b : ℕ) (r : Request) (more : List Request) where
  module _ (n : Bool) (e : s.calls b ≡ sending (r ∷ more)) (new : g.stage b r.cown ≡ away)
      (mem : member r.cown (requests b) ≡ true) where
    abbrev after_send : (ℕ → Owner) → Ghost
    after_send w = record (put b r.cown queued g) { owner = w }

    same_keeps :
        (c : ℕ)
        → keeps_lock (requests b) c (sent (r ∷ more) n) ≡ keeps_lock (requests b) c (s.calls b)
    same_keeps c = rw e refl

    -- No other call has still to send to the cown, since `b` has its lock.
    none_pending :
        (b' : ℕ)
        → b' ≢ b
        → several (requests b) ≡ true
        → several (requests b') ≡ true
        → committed (s.calls b') ≡ true
        → member r.cown (requests b') ≡ true
        → g.stage b' r.cown ≢ away
    none_pending b' ne m m' k mem' a =
        let mine : o.holder r.cown ≡ b =
          (ord.keeper_holds b r.cown m (rw (e, ==_self r.cown) refl)).1 in
        let other : o.holder r.cown ≡ b' =
          (ord.keeper_holds b' r.cown m' (
            pending_keeps (requests b') r.cown (s.calls b') k
              (ord.unsent_pending b' r.cown mem' a))).1 in
        ne (sym other ∙ mine)

    older_after :
        (b0 b' c : ℕ)
        → several (requests b0) ≡ true
        → several (requests b') ≡ true
        → committed (update s.calls b (sent (r ∷ more) n) b') ≡ true
        → member c (requests b') ≡ true
        → level ((put b r.cown queued g).stage b' c) < level ((put b r.cown queued g).stage b0 c)
        → o.stamp b0 < o.stamp b'
    older_after b0 b' c m m' k mem' lt =
        let was : committed (s.calls b') ≡ true =
          committed_before ord b (sent (r ∷ more) n) b' (λ _ _. rw e refl) m' k in
        let lower : b0 ≢ b → level (g.stage b' c) < level (g.stage b0 c) =
          λ ne. ground (arith, lt, new, ne) in
        let lower' : c ≢ r.cown → level (g.stage b' c) < level (g.stage b0 c) =
          λ ne. ground (arith, lt, ne) in
        elim (Bool-cases (b0 == b)) [
          | inr d ↦ ord.older b0 b' c m m' was mem' (lower (ne_of_== b0 b d))
          | inl d ↦ elim (Bool-cases (c == r.cown)) [
            | inr f ↦ ord.older b0 b' c m m' was mem' (lower' (ne_of_== c r.cown f))
            | inl f ↦
                let same : b0 ≡ b = eq_of_== b0 b d in
                let here : c ≡ r.cown = eq_of_== c r.cown f in
                let ne : b' ≢ b = λ k'. ground (arith, lt, same, k') in
                absurd (
                  none_pending b' ne (subst (λ n. several (requests n) ≡ true) same m) m' was
                    (subst (λ n. member n (requests b') ≡ true) here mem')
                    (ground (arith, lt, same, here, ne)))
          ]
        ]

    -- The message is behind the older ones.
    pub youngest : (q : List ℕ) → s.queue r.cown ≡ some q → Chain requests o.stamp (q ++ b ∷ [])
    youngest q eq =
        Chain-snoc requests o.stamp b q
          (λ y k m m'.
            ord.older y b r.cown m m' (rw e refl) mem
              (ground (arith, k, new, eq, inv.in_queue y r.cown)))
          (subst (InOrder requests o.stamp) eq (ord.in_order r.cown))

    kept_before :
        (b' c : ℕ)
        → keeps_lock (requests b') c (update s.calls b (sent (r ∷ more) n) b') ≡ true
        → keeps_lock (requests b') c (s.calls b') ≡ true
    kept_before b' c k = elim (Bool-cases (b' == b)) [
      | inl d ↦
          let same : b' ≡ b = eq_of_== b' b d in
          subst (λ k. keeps_lock (requests k) c (s.calls k) ≡ true) (sym same)
            (sym (same_keeps c)
              ∙ subst (λ k. keeps_lock (requests k) c (sent (r ∷ more) n) ≡ true) same (rw d at k))
      | inr d ↦ rw d at k
    ]

    still_pending :
        (b' c : ℕ)
        → member c (requests b') ≡ true
        → g.stage b' c ≡ away
        → (b' ≡ b → c ≢ r.cown)
        → pending c (update s.calls b (sent (r ∷ more) n) b') ≡ true
    still_pending b' c m a other = elim (Bool-cases (b' == b)) [
      | inl d ↦
          let same : b' ≡ b = eq_of_== b' b d in
          let p : pending c (sending (r ∷ more)) ≡ true =
            subst (λ x. pending c x ≡ true) (ap s.calls same ∙ e) (ord.unsent_pending b' c m a) in
          rw d (rw (==_ne c r.cown (other same)) at p)
      | inr d ↦ rw d (ord.unsent_pending b' c m a)
    ]

    pub sends-Ordered :
        (w : ℕ → Owner) (q' : Option (List ℕ))
        → InOrder requests o.stamp q'
        → Above r.cown more
        → ((c b' : ℕ) → w c ≡ sender b' → claims c (update s.calls b (sent (r ∷ more) n) b') ≡ true)
        → ((c t : ℕ) → w c ≡ hand t → g.owner c ≡ hand t)
        → ((c b' : ℕ) → w c ≡ body b' → g.owner c ≡ body b')
        → Ordered requests (call b (sent (r ∷ more) n) (set_queue r.cown q' s)) (after_send w) o
    unfolding set_queue
    sends-Ordered w q' hq above ws wt wb = record {
      unsent_pending = λ b' c m a.
          still_pending b' c m (ground (arith, a, new)) (λ d f. ground (arith, a, d, f));
      sender_claims = λ b' c h. ws c b' h;
      hand_handles = λ t c h. ord.hand_handles t c (wt c t h);
      taken_steps = λ b' c h. ord.taken_steps b' c (ground (arith, h));
      body_acquired = λ b' c h. ground (arith, ord.body_acquired b' c, wb c b' h, new);
      complete_works = λ b' c h z. ord.complete_works b' c (ground (arith, h)) z;
      keeper_holds = λ b' c m k. ord.keeper_holds b' c m (kept_before b' c k);
      lock_kept = λ c l.
          kept_after ord b (sent (r ∷ more) n) c (o.holder c) (λ _. same_keeps c)
            (ord.lock_kept c l);
      stamped = λ b' m k.
          ord.stamped b' m (committed_before ord b (sent (r ∷ more) n) b' (λ _ _. rw e refl) m k);
      older = older_after;
      in_order =
          update-each (λ _ q. InOrder requests o.stamp q) s.queue r.cown q' hq
            (λ c ne. ord.in_order c);
      locks_in_order =
          update-each (λ k. LocksInOrder (requests k)) s.calls b (sent (r ∷ more) n) tt
            (λ b' ne. ord.locks_in_order b');
      releases_all = λ t.
          ReleasesAll-frame requests s g (after_send w) t (s.turns t)
            (λ b' c z k. ground (arith, k)) (inv.turn_ok t) (ord.releases_all t);
    }

  claimed_here : (c b' : ℕ) → (own r.cown waiting g).owner c ≡ sender b' → (c == r.cown) ≡ true → ⊥
  claimed_here c b' h k = ground (arith, h, eq_of_== c r.cown k)

  -- The last cown that is claimed is scheduled.
  pub schedules-Ordered :
      s.calls b ≡ claimed (r ∷ [])
      → g.owner r.cown ≡ sender b
      → Ordered requests (call b returned (schedule r.cown s)) (own r.cown waiting g) o
  unfolding schedule
  schedules-Ordered e mine = record {
    unsent_pending = λ b' c m a.
        update-forward (λ k x. pending c x ≡ true) s.calls b returned b' (λ h. rw e at h)
          (ord.unsent_pending b' c m a);
    sender_claims = λ b' c h.
        update-forward (λ k x. claims c x ≡ true) s.calls b returned b'
          (λ k. absurd (claimed_here c b' h (rw e at k)))
          (ord.sender_claims b' c (ground (arith, h)));
    hand_handles = λ t c h. ord.hand_handles t c (ground (arith, h));
    taken_steps = ord.taken_steps;
    body_acquired = λ b' c h. ord.body_acquired b' c (ground (arith, h));
    complete_works = ord.complete_works;
    keeper_holds = λ b' c m k.
        ord.keeper_holds b' c m (
          update-back (λ k x. keeps_lock (requests k) c x ≡ true) s.calls b returned b' (λ h. cc)
            k);
    lock_kept =
        λ c l. kept_after ord b returned c (o.holder c) (λ _. rw e refl) (ord.lock_kept c l);
    stamped =
        λ b' m k. ord.stamped b' m (committed_before ord b returned b' (λ _ _. rw e refl) m k);
    older = λ b0 b' c m m' k.
        ord.older b0 b' c m m' (committed_before ord b returned b' (λ _ _. rw e refl) m' k);
    in_order = ord.in_order;
    locks_in_order =
        update-each (λ k. LocksInOrder (requests k)) s.calls b returned tt
          (λ b' ne. ord.locks_in_order b');
    releases_all = ord.releases_all;
  }

  -- A cown that is claimed, with others to come, is acquired.
  module _ (r' : Request) (rest : List Request) (q : List ℕ)
      (e : s.calls b ≡ claimed (r ∷ r' ∷ rest)) (mine : g.owner r.cown ≡ sender b)
      (eq : s.queue r.cown ≡ some (b ∷ q)) (waits_at : s.exec_count_down b ≢ 0)
      (waits_on : fetch_sub (s.exec_count_down b) ≢ 0) where
    was_queued : g.stage b r.cown ≡ queued
    was_queued = ground (arith, inv.in_queue b r.cown, eq)

    elsewhere :
        (c b' : ℕ)
        → (own r.cown (body b) (put b r.cown acquired g)).owner c ≡ sender b'
        → (c == r.cown) ≡ true
        → ⊥
    elsewhere c b' h k = ground (arith, h, eq_of_== c r.cown k)

    pub acquires-Ordered :
        Ordered requests
          (call b (sending (r' ∷ rest)) (set_queue r.cown (some q) (count_down b s)))
          (own r.cown (body b) (put b r.cown acquired g))
          o
    unfolding set_queue count_down
    acquires-Ordered = record {
      unsent_pending = λ b' c m a.
          update-forward (λ k x. pending c x ≡ true) s.calls b (sending (r' ∷ rest)) b'
            (λ h. rw e at h) (ord.unsent_pending b' c m (ground (arith, a, was_queued)));
      sender_claims = λ b' c h.
          update-forward (λ k x. claims c x ≡ true) s.calls b (sending (r' ∷ rest)) b'
            (λ k. absurd (elsewhere c b' h (rw e at k)))
            (ord.sender_claims b' c (ground (arith, h)));
      hand_handles = λ t c h. ord.hand_handles t c (ground (arith, h));
      taken_steps = λ b' c h. ord.taken_steps b' c (ground (arith, h));
      body_acquired = λ b' c h. ground (arith, h, ord.body_acquired b' c);
      complete_works = λ b' c h z.
          ord.complete_works b' c (ground (arith, h, z, waits_on)) (ground (arith, z, waits_on));
      keeper_holds = λ b' c m k. ord.keeper_holds b' c m (
          update-back (λ k x. keeps_lock (requests k) c x ≡ true) s.calls b (sending (r' ∷ rest)) b'
            (λ h. rw e h) k);
      lock_kept = λ c l.
          kept_after ord b (sending (r' ∷ rest)) c (o.holder c) (λ _. rw e refl)
            (ord.lock_kept c l);
      stamped = λ b' m k.
          ord.stamped b' m (committed_before ord b (sending (r' ∷ rest)) b' (λ _ _. rw e refl) m k);
      older = λ b0 b' c m m' k.
          pop-older inv ord b r.cown q acquired eq refl b0 b' c m m'
            (committed_before ord b (sending (r' ∷ rest)) b' (λ _ _. rw e refl) m' k);
      in_order =
          update-each (λ _ q. InOrder requests o.stamp q) s.queue r.cown (some q)
            ((subst (InOrder requests o.stamp) eq (ord.in_order r.cown)).1)
            (λ c ne. ord.in_order c);
      locks_in_order =
          update-each (λ k. LocksInOrder (requests k)) s.calls b (sending (r' ∷ rest)) tt
            (λ b' ne. ord.locks_in_order b');
      releases_all = λ t.
          ReleasesAll-frame requests s g (own r.cown (body b) (put b r.cown acquired g)) t
            (s.turns t) (λ b' c z k. ground (arith, k, z, waits_at)) (inv.turn_ok t)
            (ord.releases_all t);
    }
