-- ===== src/Rt/Behaviours/Calls.antt =====
-- The steps of `schedule` and `fast_send` keep the invariant.
use verona.Prelude.{
  ℕ, ◌^◌, ◌<◌, ◌≡◌, ◌++◌, ap, sym, refl, ◌∙◌, List, [], ◌∷◌, Bool, true, false, ◌==◌, Option, none,
  some, length, update, update_other, update-each, arith, inl, inr, Bool-cases, eq_of_==, ==_ne,
  subst,
}
use verona.Rt.Behaviours.Defs.{
  Request, Call, unsent, System, call, set_lock, set_queue, schedule, count_down, fetch_sub,
}
use verona.Rt.Behaviours.Holding.{
  Owner, nobody, waiting, sender, hand, body, away, queued, acquired, Ghost, own, put, missing,
  member, CallOk, is_unsent, is_nobody, asleep, Inv, WritesOnly, times, IsFirst,
}
use verona.Rt.Behaviours.Missing.{missing-away, missing-update_same, times-snoc, fetch_sub-missing}
use verona.Rt.Behaviours.Frames.{CallOk-other, TurnOk-frame}

module _ {requests : ℕ → List Request} {s : System} {g : Ghost} (inv : Inv requests s g) where
  pub set_lock-Inv : (c : ℕ) (l : Bool) → Inv requests (set_lock c l s) g
  unfolding set_lock
  set_lock-Inv c l = record {
    sleeps = inv.sleeps;
    scheduled_once = inv.scheduled_once;
    in_queue = inv.in_queue;
    counts = inv.counts;
    owned = inv.owned;
    ended = inv.ended;
    requested = inv.requested;
    unread = inv.unread;
    call_ok = inv.call_ok;
    turn_ok = inv.turn_ok;
  }

  -- A call whose body is made goes on, where nothing else changes.
  pub call-Inv :
      (b : ℕ) (x : Call)
      → is_unsent (s.calls b) ≡ false
      → CallOk requests s g b x
      → Inv requests (call b x s) g
  call-Inv b x made h = record {
    sleeps = inv.sleeps;
    scheduled_once = inv.scheduled_once;
    in_queue = inv.in_queue;
    counts =
        update-each
          (λ b' y. is_unsent y ≡ false → s.exec_count_down b' ≡ missing (g.stage b') (requests b'))
          s.calls b x (λ _. inv.counts b made) (λ b' _. inv.counts b');
    owned = inv.owned;
    ended = inv.ended;
    requested = inv.requested;
    unread = inv.unread;
    call_ok = update-each (CallOk requests s g) s.calls b x h (λ b' _. inv.call_ok b');
    turn_ok = inv.turn_ok;
  }

  abbrev make : ℕ → System
  make b = record s { exec_count_down = update s.exec_count_down b (length (requests b)) }

  pub made-Inv :
      (b : ℕ) (x : Call)
      → s.calls b ≡ unsent
      → CallOk requests s g b x
      → Inv requests (call b x (make b)) g
  made-Inv b x un h =
      let all_away : (c : ℕ) → g.stage b c ≡ away =
        subst (CallOk requests s g b) un (inv.call_ok b) in
      record {
        sleeps = inv.sleeps;
        scheduled_once = inv.scheduled_once;
        in_queue = inv.in_queue;
        counts = λ b' made. elim (Bool-cases (b' == b)) [
          | inl e ↦ rw (e, eq_of_== b' b e) (sym (missing-away (g.stage b) (requests b) all_away))
          | inr e ↦ rw e (inv.counts b' (rw e at made))
        ];
        owned = inv.owned;
        ended = λ b' c a. ground (arith, a, inv.ended b' c, all_away c);
        requested = inv.requested;
        unread = inv.unread;
        call_ok = update-each (CallOk requests s g) s.calls b x h (λ b' _. inv.call_ok b');
        turn_ok = λ t.
            TurnOk-frame requests s (call b x (make b)) g g t (s.turns t) (λ c o. (o, λ b' k. k))
              (λ b' c r z a. (r, ground (arith, all_away c), λ c' k. k)) (inv.turn_ok t);
      }

is_nobody_eq : (o : Owner) → is_nobody o ≡ true → o ≡ nobody
is_nobody_eq nobody h = refl
is_nobody_eq waiting h = cc
is_nobody_eq (sender b) h = cc
is_nobody_eq (hand t) h = cc
is_nobody_eq (body b) h = cc

IsFirst-snoc : (b x : ℕ) (q : List ℕ) → IsFirst b (some q) → IsFirst b (some (q ++ x ∷ []))
IsFirst-snoc b x [] h = absurd h
IsFirst-snoc b x (y ∷ q) h = h

IsFirst-update :
    (b x : ℕ) (q : List ℕ) (queue : ℕ → Option (List ℕ)) (c c' : ℕ)
    → queue c ≡ some q
    → IsFirst b (queue c')
    → IsFirst b (update queue c (some (q ++ x ∷ [])) c')
IsFirst-update b x q queue c c' eq f = elim (Bool-cases (c' == c)) [
  | inl e ↦ rw e (
      IsFirst-snoc b x q
        (subst (IsFirst b) eq (subst (λ n. IsFirst b (queue n)) (eq_of_== c' c e) f)))
  | inr e ↦ rw e f
]

IsFirst-update-none :
    (b : ℕ) (queue : ℕ → Option (List ℕ)) (c c' : ℕ) (v : Option (List ℕ))
    → queue c ≡ none
    → IsFirst b (queue c')
    → IsFirst b (update queue c v c')
IsFirst-update-none b queue c c' v eq f = elim (Bool-cases (c' == c)) [
  | inl e ↦ absurd (subst (IsFirst b) eq (subst (λ n. IsFirst b (queue n)) (eq_of_== c' c e) f))
  | inr e ↦ rw e f
]

-- A message is sent.
module _ {requests : ℕ → List Request} {s : System} {g : Ghost} (inv : Inv requests s g) (b c : ℕ)
    (x : Call) (made : is_unsent (s.calls b) ≡ false) (new : g.stage b c ≡ away)
    (mem : member c (requests b) ≡ true) where
  stage-counts :
      (b' : ℕ)
      → is_unsent (update s.calls b x b') ≡ false
      → s.exec_count_down b' ≡ missing ((put b c queued g).stage b') (requests b')
  stage-counts b' h = elim (Bool-cases (b' == b)) [
    | inl e ↦
        rw (e, eq_of_== b' b e)
          (inv.counts b made
            ∙ sym (missing-update_same (g.stage b) c queued (requests b) (rw new refl)))
    | inr e ↦ rw e (inv.counts b' (rw e at h))
  ]

  pub sent_awake-Inv :
      (q : List ℕ)
      → s.queue c ≡ some q
      → CallOk requests (set_queue c (some (q ++ b ∷ [])) s) (put b c queued g) b x
      → Inv requests (call b x (set_queue c (some (q ++ b ∷ [])) s)) (put b c queued g)
  unfolding set_queue
  sent_awake-Inv q eq h = record {
    sleeps = λ c'. ground (arith, inv.sleeps c', eq);
    scheduled_once = inv.scheduled_once;
    in_queue =
        λ b' c'. ground (arith, inv.in_queue b' c', inv.in_queue b c, new, eq, times-snoc b' b q);
    counts = stage-counts;
    owned = λ b' c' a. inv.owned b' c' (ground (arith, a));
    ended = λ b' c' a. inv.ended b' c' (ground (arith, a, new));
    requested = λ b' c' a. ground (arith, a, mem, inv.requested b' c');
    unread = inv.unread;
    call_ok =
        update-each (CallOk requests (set_queue c (some (q ++ b ∷ [])) s) (put b c queued g))
          s.calls b x h
          (λ b' ne.
            CallOk-other requests s (set_queue c (some (q ++ b ∷ [])) s) g (put b c queued g) b'
              (s.calls b') (λ c' o f. (o, IsFirst-update b' b q s.queue c c' eq f))
              (update_other g.stage b _ b' ne) (inv.call_ok b'));
    turn_ok = λ t.
        TurnOk-frame requests s (call b x (set_queue c (some (q ++ b ∷ [])) s)) g (put b c queued g)
          t (s.turns t) (λ c' o. (o, λ b' k. ground (arith, k, new)))
          (λ b' c' r z a. (r, z, λ c0 k. ground (arith, k, new))) (inv.turn_ok t);
  }

  pub sent_asleep-Inv :
      s.queue c ≡ none
      → CallOk requests (set_queue c (some (b ∷ [])) s) (own c (sender b) (put b c queued g)) b x
      → Inv requests
          (call b x (set_queue c (some (b ∷ [])) s))
          (own c (sender b) (put b c queued g))
  unfolding set_queue
  sent_asleep-Inv eq h =
      let free : g.owner c ≡ nobody =
        is_nobody_eq (g.owner c) (sym (inv.sleeps c) ∙ ap asleep eq) in
      record {
        sleeps = λ c'. ground (arith, inv.sleeps c', eq);
        scheduled_once = λ c'. ground (arith, inv.scheduled_once c', free);
        in_queue = λ b' c'. ground (arith, inv.in_queue b' c', inv.in_queue b c, new, eq);
        counts = stage-counts;
        owned = λ b' c' a. ground (arith, a, inv.owned b' c', inv.owned b' c, free, new);
        ended = λ b' c' a. inv.ended b' c' (ground (arith, a, new));
        requested = λ b' c' a. ground (arith, a, mem, inv.requested b' c');
        unread = inv.unread;
        call_ok =
            update-each
              (CallOk requests (set_queue c (some (b ∷ [])) s)
                (own c (sender b) (put b c queued g)))
              s.calls b x h
              (λ b' ne.
                CallOk-other requests s (set_queue c (some (b ∷ [])) s) g
                  (own c (sender b) (put b c queued g)) b' (s.calls b')
                  (λ c' o f. (ground (arith, o, free), IsFirst-update-none b' s.queue c c' _ eq f))
                  (update_other g.stage b _ b' ne) (inv.call_ok b'));
        turn_ok = λ t.
            TurnOk-frame requests s (call b x (set_queue c (some (b ∷ [])) s)) g
              (own c (sender b) (put b c queued g)) t (s.turns t)
              (λ c' o. (ground (arith, o, free), λ b' k. ground (arith, k, new)))
              (λ b' c' r z a. (r, z, λ c0 k. ground (arith, k, new))) (inv.turn_ok t);
      }

pub IsFirst-queue : (b : ℕ) (q : Option (List ℕ)) → IsFirst b q → (m : List ℕ) × (q ≡ some (b ∷ m))
IsFirst-queue b none h = absurd h
IsFirst-queue b (some []) h = absurd h
IsFirst-queue b (some (x ∷ m)) h = (m, rw h refl)

-- The first message is the call's own, and its cown is scheduled or acquired.
module _ {requests : ℕ → List Request} {s : System} {g : Ghost} (inv : Inv requests s g) (b c : ℕ)
    (x : Call) (made : is_unsent (s.calls b) ≡ false) (mine : g.owner c ≡ sender b) where
  pub scheduled-Inv :
      CallOk requests (schedule c s) (own c waiting g) b x
      → is_unsent x ≡ false
      → Inv requests (call b x (schedule c s)) (own c waiting g)
  unfolding schedule
  scheduled-Inv h made' = record {
    sleeps = λ c'. ground (arith, inv.sleeps c', mine);
    scheduled_once = λ c'. ground (arith, inv.scheduled_once c', mine);
    in_queue = inv.in_queue;
    counts =
        update-each
          (λ b' y. is_unsent y ≡ false → s.exec_count_down b' ≡ missing (g.stage b') (requests b'))
          s.calls b x (λ _. inv.counts b made) (λ b' _. inv.counts b');
    owned = λ b' c' a. ground (arith, a, inv.owned b' c', mine);
    ended = inv.ended;
    requested = inv.requested;
    unread = inv.unread;
    call_ok = update-each (CallOk requests (schedule c s) (own c waiting g)) s.calls b x h (λ b' ne.
        CallOk-other requests s (schedule c s) g (own c waiting g) b' (s.calls b')
          (λ c' o f. (ground (arith, o, mine, ne), f)) refl (inv.call_ok b'));
    turn_ok = λ t.
        TurnOk-frame requests s (call b x (schedule c s)) g (own c waiting g) t (s.turns t)
          (λ c' o. (ground (arith, o, mine), λ b' k. k)) (λ b' c' r z a. (r, z, λ c0 k. k))
          (inv.turn_ok t);
  }

  module _ (w : WritesOnly requests) (q : List ℕ) (eq : s.queue c ≡ some (b ∷ q)) where
    abbrev taken_state : System
    taken_state = set_queue c (some q) (count_down b s)

    abbrev taken_ghost : Ghost
    taken_ghost = own c (body b) (put b c acquired g)

    pub was_queued : (g.stage b c ≡ queued) × (times b q ≡ 0)
    was_queued = ground (arith, inv.in_queue b c, eq)

    mem : member c (requests b) ≡ true
    mem = inv.requested b c (ground (arith, was_queued))

    pub acquired_counts :
        (0 < s.exec_count_down b)
        × (s.exec_count_down b < 2 ^ 64)
        × (fetch_sub (s.exec_count_down b) ≡ missing (update (g.stage b) c acquired) (requests b))
    acquired_counts =
        fetch_sub-missing (g.stage b) c (s.exec_count_down b) (requests b) (w.sorted b) (w.short b)
          mem (rw was_queued.0 refl) (inv.counts b made)

    pub acquired-Inv :
        CallOk requests taken_state taken_ghost b x
        → is_unsent x ≡ false
        → Inv requests (call b x taken_state) taken_ghost
    unfolding set_queue count_down
    acquired-Inv h made' = record {
      sleeps = λ c'. ground (arith, inv.sleeps c', mine);
      scheduled_once = λ c'. ground (arith, inv.scheduled_once c', mine);
      in_queue = λ b' c'. ground (arith, inv.in_queue b' c', was_queued, eq);
      counts = λ b' m. elim (Bool-cases (b' == b)) [
        | inl e ↦ rw (e, eq_of_== b' b e) acquired_counts.2
        | inr e ↦ rw e (inv.counts b' (rw e at m))
      ];
      owned = λ b' c' a. ground (arith, a, inv.owned b' c', mine);
      ended = λ b' c' a. ground (arith, a, inv.ended b' c', acquired_counts);
      requested = λ b' c' a. ground (arith, a, mem, inv.requested b' c');
      unread = inv.unread;
      call_ok = update-each (CallOk requests taken_state taken_ghost) s.calls b x h (λ b' ne.
          CallOk-other requests s taken_state g taken_ghost b' (s.calls b')
            (λ c' o f. (
              ground (arith, o, mine, ne),
              rw (==_ne c' c (λ e. ground (arith, o, mine, ne, ap g.owner e))) f,
            ))
            (update_other g.stage b _ b' ne) (inv.call_ok b'));
      turn_ok = λ t.
          TurnOk-frame requests s (call b x taken_state) g taken_ghost t (s.turns t)
            (λ c' o. (ground (arith, o, mine), λ b' k. ground (arith, k, was_queued)))
            (λ b' c' r z a. (r, ground (arith, z, acquired_counts), λ c0 k. ground (arith, k)))
            (inv.turn_ok t);
    }
