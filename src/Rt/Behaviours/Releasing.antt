-- ===== src/Rt/Behaviours/Releasing.antt =====
-- The cowns that a behaviour gives back keep the invariant.
use verona.Prelude.{
  ℕ, ◌≡◌, sym, refl, ◌∙◌, List, ◌==◌, some, update_same, update-each, arith, inl, inr, Bool-cases,
  eq_of_==,
}
use verona.Rt.Behaviours.Defs.{Request, Turn, running, System, turn, schedule}
use verona.Rt.Behaviours.Holding.{
  waiting, hand, body, acquired, released, Ghost, own, put, missing, TurnOk, Inv,
}
use verona.Rt.Behaviours.Missing.{Unsent-put, missing-update_same}
use verona.Rt.Behaviours.Frames.{CallOk-frame, TurnOk-frame}

module _ {requests : ℕ → List Request} {s : System} {g : Ghost} (inv : Inv requests s g) (t b c : ℕ)
    (alone : g.runner b ≡ some t) (done : s.exec_count_down b ≡ 0)
    (had : g.stage b c ≡ acquired) where
  missing-released :
      (b' : ℕ)
      → missing ((put b c released g).stage b') (requests b') ≡ missing (g.stage b') (requests b')
  missing-released b' = elim (Bool-cases (b' == b)) [
    | inl h ↦
        rw (h, eq_of_== b' b h)
          (missing-update_same (g.stage b) c released (requests b) (rw had refl))
    | inr h ↦ rw h refl
  ]

  was : g.owner c ≡ body b
  was = inv.owned b c had

  -- To the scheduler queues.
  pub given_back-Inv :
      (y : Turn)
      → TurnOk requests (schedule c s) (own c waiting (put b c released g)) t y
      → Inv requests (turn t y (schedule c s)) (own c waiting (put b c released g))
  unfolding schedule
  given_back-Inv y h = record {
    sleeps = λ c'. ground (arith, inv.sleeps c', was);
    scheduled_once = λ c'. ground (arith, inv.scheduled_once c', was);
    in_queue = λ b' c'. ground (arith, inv.in_queue b' c', had);
    counts = λ b' m. inv.counts b' m ∙ sym (missing-released b');
    owned = λ b' c' a. ground (arith, a, inv.owned b' c', was);
    ended = λ b' c' a. ground (arith, a, inv.ended b' c', done);
    requested = λ b' c' a. ground (arith, a, had, inv.requested b' c', inv.requested b c);
    unread = inv.unread;
    call_ok = λ b'.
        CallOk-frame requests s (schedule c s) g (own c waiting (put b c released g)) b'
          (s.calls b') (λ c' o f. (ground (arith, o, was), f))
          (λ rs u.
            Unsent-put g.stage (requests b') b b' c released rs (λ a. ground (arith, a, had)) u)
          (λ c' a. ground (arith, a, had)) (inv.call_ok b');
    turn_ok =
        update-each (TurnOk requests (schedule c s) (own c waiting (put b c released g))) s.turns t
          y h
          (λ t' ne.
            TurnOk-frame requests s (schedule c s) g (own c waiting (put b c released g)) t'
              (s.turns t') (λ c' o. (ground (arith, o, was), λ b' k. ground (arith, k, had)))
              (λ b' c' r z a. (r, z, λ c0 k. ground (arith, k, r, alone, ne))) (inv.turn_ok t'));
  }

  -- To the thread.
  pub kept-Inv : Inv requests (turn t (running c) s) (own c (hand t) (put b c released g))
  kept-Inv = record {
    sleeps = λ c'. ground (arith, inv.sleeps c', was);
    scheduled_once = λ c'. ground (arith, inv.scheduled_once c', was);
    in_queue = λ b' c'. ground (arith, inv.in_queue b' c', had);
    counts = λ b' m. inv.counts b' m ∙ sym (missing-released b');
    owned = λ b' c' a. ground (arith, a, inv.owned b' c', was);
    ended = λ b' c' a. ground (arith, a, inv.ended b' c', done);
    requested = λ b' c' a. ground (arith, a, had, inv.requested b' c', inv.requested b c);
    unread = inv.unread;
    call_ok = λ b'.
        CallOk-frame requests s s g (own c (hand t) (put b c released g)) b' (s.calls b')
          (λ c' o f. (ground (arith, o, was), f))
          (λ rs u.
            Unsent-put g.stage (requests b') b b' c released rs (λ a. ground (arith, a, had)) u)
          (λ c' a. ground (arith, a, had)) (inv.call_ok b');
    turn_ok =
        update-each (TurnOk requests s (own c (hand t) (put b c released g))) s.turns t (running c)
          (update_same g.owner c (hand t))
          (λ t' ne.
            TurnOk-frame requests s s g (own c (hand t) (put b c released g)) t' (s.turns t')
              (λ c' o. (ground (arith, o, was), λ b' k. ground (arith, k, had)))
              (λ b' c' r z a. (r, z, λ c0 k. ground (arith, k, r, alone, ne))) (inv.turn_ok t'));
  }
