-- ===== src/Rt/Behaviours/Running.antt =====
-- Every step of a thread, and so every step of the system, keeps the invariant.
use verona.Prelude.{
  ℕ, ◌^◌, ◌<◌, ◌≡◌, ◌≢◌, ap, sym, refl, ◌∙◌, List, [], ◌∷◌, true, false, ◌==◌, ltb, Option, none,
  some, update, update_same, update_other, arith, inl, inr, Bool-cases, ne_of_==, ==_self, ==_ne,
  eq_of_==, subst,
}
use verona.Rt.ReadRefCount.Defs.{try_write_load}
use verona.Rt.Behaviours.Defs.{
  Request, Turn, idle, running, stepping, executing, releasing, System, schedule, count_down,
  fetch_sub, try_write, run_message, run_queue, run_step, release, run, Step, sends, picks, runs,
  finds_late, returns, turn, set_queue, initial, Reachable, start, next, dequeue,
}
use verona.Rt.Behaviours.Holding.{
  nobody, hand, Stage, away, taken, acquired, released, Ghost, own, put, waits, missing, member,
  TurnOk, Inv, WritesOnly,
}
use verona.Rt.Behaviours.Missing.{
  member-Above, reads_it-AllWrite, waits_of_missing, fetch_sub_last, fetch_sub_more,
}
use verona.Rt.Behaviours.Turns.{
  turn-Inv, picked-Inv, scheduled_again-Inv, slept-Inv, taken-Inv, stepped-Inv, counted,
}
use verona.Rt.Behaviours.Releasing.{given_back-Inv, kept-Inv}
use verona.Rt.Behaviours.Order.Defs.{Times, handles, ReleasesAll, Ordered}
use verona.Rt.Behaviours.Order.Turns.{
  turn-Ordered, picked-Ordered, scheduled_again-Ordered, slept-Ordered, taken-Ordered,
}
use verona.Rt.Behaviours.Order.Bodies.{stepped-Ordered, given_back-Ordered, kept-Ordered}
use verona.Rt.Behaviours.Sending.{Good, fast_send-Good}

module _ {requests : ℕ → List Request} (w : WritesOnly requests) {s : System} (g : Ghost)
    (o : Times) (inv : Inv requests s g) (ord : Ordered requests s g o) (t : ℕ) where
  known : (y : Turn) → s.turns t ≡ y → TurnOk requests s g t y
  known y e = subst (TurnOk requests s g t) e (inv.turn_ok t)

  run_message-Good :
      (c b : ℕ) (q : List ℕ)
      → s.turns t ≡ running c
      → g.owner c ≡ hand t
      → s.queue c ≡ some (b ∷ q)
      → Good requests (run_message (requests b) s t c b)
  unfolding run_message try_write try_write_load dequeue
  run_message-Good c b q at mine e =
      rw (reads_it-AllWrite c (requests b) (w.writes b), inv.unread c, e)
        (put b c taken g, o, taken-Inv inv t c mine b q e, taken-Ordered inv ord t c at mine b q e)

  finds_late-Good :
      (c b : ℕ) (q : List ℕ)
      → s.turns t ≡ running c
      → s.queue c ≡ some (b ∷ q)
      → Good requests (turn t (stepping c b) (set_queue c (dequeue (s.queue c)) s))
  unfolding set_queue dequeue
  finds_late-Good c b q at e =
      let mine = known (running c) at in
      rw e
        (put b c taken g, o, taken-Inv inv t c mine b q e, taken-Ordered inv ord t c at mine b q e)

  run_queue-Good :
      (c : ℕ) (q : Option (List ℕ))
      → s.turns t ≡ running c
      → g.owner c ≡ hand t
      → s.queue c ≡ q
      → Good requests (run_queue requests s t c q)
  unfolding run_queue
  run_queue-Good c none at mine e = (g, o, inv, ord)
  run_queue-Good c (some []) at mine e =
      (own c nobody g, o, slept-Inv inv t c mine e, slept-Ordered inv ord t c at mine)
  run_queue-Good c (some (b ∷ q)) at mine e = run_message-Good c b q at mine e

  put_self : (b c c' : ℕ) (x : Stage) → (put b c x g).stage b c' ≡ update (g.stage b) c x c'
  put_self b c c' x = ap (λ f. f c') (update_same g.stage b (update (g.stage b) c x))

  all_acquired :
      (c b : ℕ)
      → missing (update (g.stage b) c acquired) (requests b) ≡ 0
      → 0 < s.exec_count_down b
      → (c' : ℕ) → member c' (requests b) ≡ true
      → update (g.stage b) c acquired c' ≡ acquired
  all_acquired c b z pos c' m =
      let none_waits : waits (update (g.stage b) c acquired c') ≡ 0 =
        waits_of_missing (update (g.stage b) c acquired) c' (requests b) z m in
      ground (arith, none_waits, inv.ended b c')

  run_step-Good :
      (c b : ℕ)
      → s.turns t ≡ stepping c b
      → g.owner c ≡ hand t
      → g.stage b c ≡ taken
      → Good requests (run_step (requests b) s t c b)
  unfolding run_step count_down
  run_step-Good c b at mine was =
      rw (reads_it-AllWrite c (requests b) (w.writes b))
        (elim (Bool-cases (ltb 1 (s.exec_count_down b))) [
          | inl more ↦ rw more (
            _,
            o,
            stepped-Inv inv t c mine b was w idle g.runner (λ b' ne. refl) tt,
            stepped-Ordered inv ord t b c idle g.runner at mine was (λ z. omega (arith, now.0))
                (λ z. absurd (not_finished more z)) tt,
          )
          | inr last ↦ rw last (
            _,
            o,
            stepped-Inv inv t c mine b was w (executing c b true) (update g.runner b (some t))
                (λ b' ne. update_other g.runner b (some t) b' ne)
                (
                  (
                    update_same g.runner b (some t),
                    update_same s.exec_count_down b _ ∙ finished last,
                    put_self b c c acquired ∙ update_same (g.stage b) c acquired,
                  ),
                  refl,
                  λ c' m.
                      put_self b c c' acquired
                      ∙ all_acquired c b (sym now.2 ∙ finished last) now.0 c' m,
                ),
            stepped-Ordered inv ord t b c (executing c b true) (update g.runner b (some t)) at mine
                was (λ z. omega (arith, now.0)) (λ z. rw (==_self b) refl) tt,
          )
        ])
    where
      now :
          (0 < s.exec_count_down b)
          × (s.exec_count_down b < 2 ^ 64)
          × (fetch_sub (s.exec_count_down b) ≡ missing (update (g.stage b) c acquired) (requests b))
      now = counted inv t c mine b was w

      not_finished : ltb 1 (s.exec_count_down b) ≡ true → fetch_sub (s.exec_count_down b) ≡ 0 → ⊥
      not_finished more z = fetch_sub_more (s.exec_count_down b) now.1 more z

      finished : ltb 1 (s.exec_count_down b) ≡ false → fetch_sub (s.exec_count_down b) ≡ 0
      finished last = fetch_sub_last (s.exec_count_down b) now.0 last

  release-Good :
      (c b : ℕ) (r : Request) (rs : List Request)
      → s.turns t ≡ releasing c b true (r ∷ rs)
      → TurnOk requests s g t (releasing c b true (r ∷ rs))
      → Good requests (release s t c b true r rs)
  unfolding release schedule
  release-Good c b r rs at h = rw h.2.1.0 (elim (Bool-cases (r.cown == c)) [
    | inl same ↦ rw same (
      g,
      o,
      turn-Inv inv t (releasing c b true rs)
          (h.0, refl, (h.2.0.1, h.2.1.1), λ c' m. h.3 c' (later c' m)),
      turn-Ordered inv ord t (releasing c b true rs) (λ c' k. absurd (no_hand c' k))
          (λ b' c' d. absurd (no_step b' c' d)) (λ b' k. rw at at k)
          (λ c' a ne. still_there c' a ne (λ f. ne (f ∙ eq_of_== r.cown c same))),
    )
    | inr other ↦ rw other (
      _,
      o,
      given_back-Inv inv t b r.cown h.0.0 h.0.1 (h.3 r.cown (rw (==_self r.cown) refl))
          (releasing c b true rs)
          (
            (
              h.0.0,
              h.0.1,
              put_self b r.cown c released ∙ kept c (λ e. ne_of_== r.cown c other (sym e)) ∙ h.0.2,
            ),
            refl,
            (h.2.0.1, h.2.1.1),
            λ c' m. put_self b r.cown c' released ∙ kept c' (above c' m) ∙ h.3 c' (later c' m),
          ),
      given_back-Ordered inv ord t b r.cown (h.3 r.cown (rw (==_self r.cown) refl))
          (releasing c b true rs) (λ c'. rw at refl) no_step (λ b' k. rw at at k)
          (λ c' a ne. still_there c' (ground (arith, a)) ne (λ f. ground (arith, a, f))),
    )
  ])
    where
      no_hand : (c' : ℕ) → handles c' (s.turns t) ≡ true → ⊥
      no_hand c' k = let stuck : false ≡ true = rw at at k in cc

      no_step : (b' c' : ℕ) → s.turns t ≡ stepping c' b' → ⊥
      no_step b' c' d = ground (arith, d, at)

      all : ReleasesAll g (releasing c b true (r ∷ rs))
      all = subst (ReleasesAll g) at (ord.releases_all t)

      still_there : (c' : ℕ) → g.stage b c' ≡ acquired → c' ≢ c → c' ≢ r.cown → member c' rs ≡ true
      still_there c' a ne ne' = rw (==_ne c' r.cown ne') at (all c' a ne)

      later : (c' : ℕ) → member c' rs ≡ true → member c' (r ∷ rs) ≡ true
      later c' m = elim (Bool-cases (c' == r.cown)) [ inl e ↦ rw e refl | inr e ↦ rw e m ]

      kept : (c' : ℕ) → c' ≢ r.cown → update (g.stage b) r.cown released c' ≡ g.stage b c'
      kept c' ne = update_other (g.stage b) r.cown released c' ne

      above : (c' : ℕ) → member c' rs ≡ true → c' ≢ r.cown
      above c' m e =
          let lt : r.cown < c' = member-Above c' r.cown rs h.2.0.0 m in absurd (omega arith)

  run-Good : (y : Turn) → s.turns t ≡ y → Good requests (run requests s t y)
  unfolding run
  run-Good idle e = (g, o, inv, ord)
  run-Good (running c) e = run_queue-Good c (s.queue c) e (known (running c) e) refl
  run-Good (stepping c b) e =
      run_step-Good c b e (known (stepping c b) e).0 (known (stepping c b) e).1
  run-Good (executing c b after) e =
      let k = known (executing c b after) e in
      (
        g,
        o,
        turn-Inv inv t (releasing c b after (requests b)) (k.0, k.1, (w.sorted b, w.writes b), k.2),
        turn-Ordered inv ord t (releasing c b after (requests b))
            (λ c' h. let stuck : false ≡ true = rw e at h in cc)
            (λ b' c' d. absurd (ground (arith, d, e))) (λ b' h. rw e at h)
            (λ c' a ne. inv.requested b c' (λ z. ground (arith, a, z))),
      )
  run-Good (releasing c b after []) e =
      let k = known (releasing c b after []) e in
      rw k.1 (_, o, kept-Inv inv t b c k.0.0 k.0.1 k.0.2, kept-Ordered inv ord t b c k.0.2 e)
  run-Good (releasing c b after (r ∷ rs)) e =
      let k = known (releasing c b after (r ∷ rs)) e in
      rw k.1
        (release-Good c b r rs (e ∙ ap (λ a. releasing c b a (r ∷ rs)) k.1) (k.0, refl, k.2, k.3))

-- Every step keeps the invariant.
Step-Good :
    {requests : ℕ → List Request} {s s' : System}
    → WritesOnly requests
    → Good requests s
    → Step requests s s'
    → Good requests s'
Step-Good w (g, o, inv, ord) (sends s s' b e) = fast_send-Good w g o inv ord b (s.calls b) refl e
Step-Good w (g, o, inv, ord) (picks s t c n e h) =
    (_, o, picked-Inv inv t c n h, picked-Ordered inv ord t c n e h)
Step-Good w (g, o, inv, ord) (runs s t) = run-Good w g o inv ord t (s.turns t) refl
Step-Good w (g, o, inv, ord) (finds_late s t c b q at e) =
    finds_late-Good w g o inv ord t c b q at e
Step-Good {requests} w (g, o, inv, ord) (returns s t c e) =
    let mine = subst (TurnOk requests s g t) e (inv.turn_ok t) in
    (_, o, scheduled_again-Inv inv t c mine, scheduled_again-Ordered inv ord t c e mine)

never : (h : away ≡ taken) → ⊥
never h = cc

never' : (h : away ≡ acquired) → ⊥
never' h = cc

initial-Good : (requests : ℕ → List Request) → Good requests initial
unfolding initial
initial-Good requests = (
  record { owner = λ c. nobody; stage = λ b c. away; runner = λ b. none },
  record { holder = λ c. 0; stamp = λ b. 0; clock = 0 },
  record {
    sleeps = λ c. refl;
    scheduled_once = λ c. refl;
    in_queue = λ b c. refl;
    counts = λ b h. cc;
    owned = λ b c h. cc;
    ended = λ b c h. refl;
    requested = λ b c h. absurd (h refl);
    unread = λ c. refl;
    call_ok = λ b c. refl;
    turn_ok = λ t. tt;
  },
  record {
    unsent_pending = λ b c m a. refl;
    sender_claims = λ b c h. cc;
    hand_handles = λ t c h. cc;
    taken_steps = λ b c h. absurd (never h);
    body_acquired = λ b c h. cc;
    complete_works = λ b c h z. absurd (never' h);
    releases_all = λ t. tt;
    keeper_holds = λ b c m k. cc;
    lock_kept = λ c l. cc;
    stamped = λ b m k. cc;
    older = λ b b' c m m' k. cc;
    in_order = λ c. tt;
    locks_in_order = λ b. tt;
  },
)

pub Reachable-Good :
    {requests : ℕ → List Request} {s : System}
    → WritesOnly requests
    → Reachable requests s
    → Good requests s
Reachable-Good {requests} w start = initial-Good requests
Reachable-Good w (next r st) = Step-Good w (Reachable-Good w r) st
