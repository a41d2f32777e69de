-- ===== src/Rt/Behaviours/Turns.antt =====
-- The steps of `run` and `run_step` keep the invariant.
use verona.Prelude.{
  ℕ, suc, ◌^◌, ◌<◌, ◌≡◌, ◌≢◌, ap, sym, refl, ◌∙◌, List, [], ◌∷◌, true, false, ◌==◌, Option, none,
  some, update, update_same, update-each, arith, inl, inr, Bool-cases, eq_of_==, ==_ne,
}
use verona.Rt.Behaviours.Defs.{
  Request, Call, unsent, locking, sending, sent, claimed, adding, returned, Turn, idle, running,
  stepping, System, turn, set_queue, schedule, count_down, fetch_sub,
}
use verona.Rt.Behaviours.Holding.{
  Owner, nobody, waiting, sender, hand, body, is_waiting, Stage, queued, taken, acquired, Ghost,
  own, put, waits, missing, member, CallOk, TurnOk, is_unsent, Inv, WritesOnly, times,
}
use verona.Rt.Behaviours.Missing.{Unsent-put, missing-update_same, fetch_sub-missing}
use verona.Rt.Behaviours.Frames.{CallOk-other, CallOk-frame, TurnOk-frame}

is_waiting_eq : (o : Owner) {n : ℕ} → is_waiting o ≡ suc n → o ≡ waiting
is_waiting_eq nobody h = absurd (omega arith)
is_waiting_eq waiting h = refl
is_waiting_eq (sender b) h = absurd (omega arith)
is_waiting_eq (hand t) h = absurd (omega arith)
is_waiting_eq (body b) h = absurd (omega arith)

module _ {requests : ℕ → List Request} {s : System} {g : Ghost} (inv : Inv requests s g)
    (t : ℕ) where
  -- A thread goes on, where nothing else changes.
  pub turn-Inv : (y : Turn) → TurnOk requests s g t y → Inv requests (turn t y s) g
  turn-Inv y h = record {
    sleeps = inv.sleeps;
    scheduled_once = inv.scheduled_once;
    in_queue = inv.in_queue;
    counts = inv.counts;
    owned = inv.owned;
    ended = inv.ended;
    requested = inv.requested;
    unread = inv.unread;
    call_ok = inv.call_ok;
    turn_ok = update-each (TurnOk requests s g) s.turns t y h (λ t' _. inv.turn_ok t');
  }

  missing-put_same :
      (b' b c : ℕ) (x : Stage)
      → waits x ≡ waits (g.stage b c)
      → missing ((put b c x g).stage b') (requests b') ≡ missing (g.stage b') (requests b')
  missing-put_same b' b c x e = elim (Bool-cases (b' == b)) [
    | inl h ↦ rw (h, eq_of_== b' b h) (missing-update_same (g.stage b) c x (requests b) e)
    | inr h ↦ rw h refl
  ]

  -- A thread takes a cown from the scheduler queues.
  pub picked-Inv :
      (c n : ℕ)
      → s.scheduled c ≡ suc n
      → Inv requests
          (turn t (running c) (record s { scheduled = update s.scheduled c n }))
          (own c (hand t) g)
  picked-Inv c n e =
      let was : g.owner c ≡ waiting = is_waiting_eq (g.owner c) (sym (inv.scheduled_once c) ∙ e) in
      record {
        sleeps = λ c'. ground (arith, inv.sleeps c', was);
        scheduled_once = λ c'. ground (arith, inv.scheduled_once c', was, e);
        in_queue = inv.in_queue;
        counts = inv.counts;
        owned = λ b' c' a. ground (arith, a, inv.owned b' c', was);
        ended = inv.ended;
        requested = inv.requested;
        unread = inv.unread;
        call_ok = λ b.
            CallOk-other requests s s g (own c (hand t) g) b (s.calls b)
              (λ c' o f. (ground (arith, o, was), f)) refl (inv.call_ok b);
        turn_ok =
            update-each (TurnOk requests s (own c (hand t) g)) s.turns t (running c)
              (update_same g.owner c (hand t))
              (λ t' ne.
                TurnOk-frame requests s s g (own c (hand t) g) t' (s.turns t')
                  (λ c' o. (ground (arith, o, was), λ b' k. k)) (λ b' c' r z a. (r, z, λ c0 k. k))
                  (inv.turn_ok t'));
      }

  -- A thread that holds a cown, or a body for which it runs, passes it on: to the scheduler queues, to
  -- sleep, or back to itself.
  module _ (c : ℕ) (mine : g.owner c ≡ hand t) where
    pub scheduled_again-Inv : Inv requests (turn t idle (schedule c s)) (own c waiting g)
    unfolding schedule
    scheduled_again-Inv = record {
      sleeps = λ c'. ground (arith, inv.sleeps c', mine);
      scheduled_once = λ c'. ground (arith, inv.scheduled_once c', mine);
      in_queue = inv.in_queue;
      counts = inv.counts;
      owned = λ b' c' a. ground (arith, a, inv.owned b' c', mine);
      ended = inv.ended;
      requested = inv.requested;
      unread = inv.unread;
      call_ok = λ b.
          CallOk-other requests s (schedule c s) g (own c waiting g) b (s.calls b)
            (λ c' o f. (ground (arith, o, mine), f)) refl (inv.call_ok b);
      turn_ok =
          update-each (TurnOk requests (schedule c s) (own c waiting g)) s.turns t idle tt (λ t' ne.
            TurnOk-frame requests s (schedule c s) g (own c waiting g) t' (s.turns t')
              (λ c' o. (ground (arith, o, mine, ne), λ b' k. k)) (λ b' c' r z a. (r, z, λ c0 k. k))
              (inv.turn_ok t'));
    }

    pub slept-Inv :
        s.queue c ≡ some [] → Inv requests (turn t idle (set_queue c none s)) (own c nobody g)
    unfolding set_queue
    slept-Inv e = record {
      sleeps = λ c'. ground (arith, inv.sleeps c', mine);
      scheduled_once = λ c'. ground (arith, inv.scheduled_once c', mine);
      in_queue = λ b' c'. ground (arith, inv.in_queue b' c', e);
      counts = inv.counts;
      owned = λ b' c' a. ground (arith, a, inv.owned b' c', mine);
      ended = inv.ended;
      requested = inv.requested;
      unread = inv.unread;
      call_ok = λ b.
          CallOk-other requests s (set_queue c none s) g (own c nobody g) b (s.calls b)
            (λ c' o f. (
              ground (arith, o, mine),
              rw (==_ne c' c (λ d. ground (arith, o, mine, ap g.owner d))) f,
            ))
            refl (inv.call_ok b);
      turn_ok =
          update-each (TurnOk requests (set_queue c none s) (own c nobody g)) s.turns t idle tt
            (λ t' ne.
              TurnOk-frame requests s (set_queue c none s) g (own c nobody g) t' (s.turns t')
                (λ c' o. (ground (arith, o, mine, ne), λ b' k. k))
                (λ b' c' r z a. (r, z, λ c0 k. k)) (inv.turn_ok t'));
    }

    -- A message is taken.
    pub taken-Inv :
        (b : ℕ) (q : List ℕ)
        → s.queue c ≡ some (b ∷ q)
        → Inv requests (turn t (stepping c b) (set_queue c (some q) s)) (put b c taken g)
    unfolding set_queue
    taken-Inv b q e =
        let was : (g.stage b c ≡ queued) × (times b q ≡ 0) = ground (arith, inv.in_queue b c, e) in
        record {
          sleeps = λ c'. ground (arith, inv.sleeps c', e);
          scheduled_once = inv.scheduled_once;
          in_queue = λ b' c'. ground (arith, inv.in_queue b' c', was, e);
          counts =
              λ b' m. inv.counts b' m ∙ sym (missing-put_same b' b c taken (ground (arith, was)));
          owned = λ b' c' a. ground (arith, a, inv.owned b' c');
          ended = λ b' c' a. inv.ended b' c' (ground (arith, a));
          requested = λ b' c' a. ground (arith, a, was, inv.requested b' c', inv.requested b c);
          unread = inv.unread;
          call_ok = λ b'.
              CallOk-frame requests s (set_queue c (some q) s) g (put b c taken g) b' (s.calls b')
                (λ c' o f. (o, rw (==_ne c' c (λ d. ground (arith, o, mine, ap g.owner d))) f))
                (λ rs u.
                  Unsent-put g.stage (requests b') b b' c taken rs (λ a. ground (arith, a, was)) u)
                (λ c' a. ground (arith, a, was)) (inv.call_ok b');
          turn_ok =
              update-each (TurnOk requests (set_queue c (some q) s) (put b c taken g)) s.turns t
                (stepping c b) (mine, ground arith)
                (λ t' ne.
                  TurnOk-frame requests s (set_queue c (some q) s) g (put b c taken g) t'
                    (s.turns t') (λ c' o. (o, λ b' k. ground (arith, k, was)))
                    (λ b' c' r z a. (r, z, λ c0 k. ground (arith, k, was))) (inv.turn_ok t'));
        }

    -- The thread acquires the cown for the body of the message that it took, and goes on as `y`.
    module _ (b : ℕ) (was : g.stage b c ≡ taken) (w : WritesOnly requests) where
      abbrev next_ghost : (ℕ → Option ℕ) → Ghost
      next_ghost ru = record (own c (body b) (put b c acquired g)) { runner = ru }

      mem : member c (requests b) ≡ true
      mem = inv.requested b c (ground (arith, was))

      made : is_unsent (s.calls b) ≡ false
      made = taken_made (s.calls b) (inv.call_ok b)
        where
          taken_made : (x : Call) → CallOk requests s g b x → is_unsent x ≡ false
          taken_made unsent h = ground (arith, h c, was)
          taken_made (locking rs) h = refl
          taken_made (sending rs) h = refl
          taken_made (sent rs n) h = refl
          taken_made (claimed rs) h = refl
          taken_made (adding rs) h = refl
          taken_made returned h = refl

      pub counted :
          (0 < s.exec_count_down b)
          × (s.exec_count_down b < 2 ^ 64)
          × (fetch_sub (s.exec_count_down b) ≡ missing (update (g.stage b) c acquired) (requests b))
      counted =
          fetch_sub-missing (g.stage b) c (s.exec_count_down b) (requests b) (w.sorted b)
            (w.short b) mem (rw was refl) (inv.counts b made)

      pub stepped-Inv :
          (y : Turn) (ru : ℕ → Option ℕ)
          → ((b' : ℕ) → b' ≢ b → ru b' ≡ g.runner b')
          → TurnOk requests (count_down b s) (next_ghost ru) t y
          → Inv requests (turn t y (count_down b s)) (next_ghost ru)
      unfolding count_down
      stepped-Inv y ru same h = record {
        sleeps = λ c'. ground (arith, inv.sleeps c', mine);
        scheduled_once = λ c'. ground (arith, inv.scheduled_once c', mine);
        in_queue = λ b' c'. ground (arith, inv.in_queue b' c', was);
        counts = λ b' m. elim (Bool-cases (b' == b)) [
          | inl e ↦ rw (e, eq_of_== b' b e) counted.2
          | inr e ↦ rw e (inv.counts b' m)
        ];
        owned = λ b' c' a. ground (arith, a, inv.owned b' c', mine);
        ended = λ b' c' a. ground (arith, a, inv.ended b' c', inv.ended b c', counted);
        requested = λ b' c' a. ground (arith, a, mem, inv.requested b' c');
        unread = inv.unread;
        call_ok = λ b'.
            CallOk-frame requests s (count_down b s) g (next_ghost ru) b' (s.calls b')
              (λ c' o f. (ground (arith, o, mine), f))
              (λ rs u.
                Unsent-put g.stage (requests b') b b' c acquired rs (λ a. ground (arith, a, was)) u)
              (λ c' a. ground (arith, a, was)) (inv.call_ok b');
        turn_ok =
            update-each (TurnOk requests (count_down b s) (next_ghost ru)) s.turns t y h (λ t' ne.
              TurnOk-frame requests s (count_down b s) g (next_ghost ru) t' (s.turns t')
                (λ c' o. (ground (arith, o, mine, ne), λ b' k. ground (arith, k, o, mine, ne)))
                (λ b' c' r z a. (
                  same b' (λ e. ground (arith, z, counted, ap s.exec_count_down e)) ∙ r,
                  ground (arith, z, counted),
                  λ c0 k. ground (arith, k, was),
                ))
                (inv.turn_ok t'));
      }
