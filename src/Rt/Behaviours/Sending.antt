-- ===== src/Rt/Behaviours/Sending.antt =====
-- Every step of `fast_send` keeps the invariant.
use verona.Prelude.{
  ℕ, ◌<◌, ◌≤◌, ◌++◌, ◌==◌, ==_ne, update-forward, ◌≡◌, ap, sym, refl, ◌∙◌, List, [], ◌∷◌, Bool,
  true, false, ltb, if◌then◌else◌, none, some, some-injective, length, update, update_same, arith,
  inl, inr, Bool-cases, Option-cases, ==_self, subst,
}
use verona.Rt.Behaviours.Defs.{
  Request, Call, unsent, locking, sending, sent, claimed, adding, returned, System, call, set_lock,
  set_queue, schedule, count_down, enqueue, dequeue, after_sent, fast_send,
}
use verona.Rt.Behaviours.Holding.{
  away, waits, missing, member, Above, waiting, sender, body, Stage, queued, acquired, Ghost, own,
  put, Unsent, CallOk, is_unsent, Inv, WritesOnly,
}
use verona.Rt.Behaviours.Missing.{waits_le_missing, Unsent-Above, Unsent-all, Unsent-gone}
use verona.Rt.Behaviours.Calls.{
  set_lock-Inv, call-Inv, made-Inv, sent_awake-Inv, sent_asleep-Inv, scheduled-Inv, acquired-Inv,
  acquired_counts, IsFirst-queue,
}
use verona.Rt.Behaviours.Order.Defs.{Times, claims, Ordered}
use verona.Rt.Behaviours.Order.Stamps.{stamp_now, commits-Ordered}
use verona.Rt.Behaviours.Order.Sends.{youngest, sends-Ordered, schedules-Ordered, acquires-Ordered}
use verona.Rt.Behaviours.Order.Locks.{
  starts_locking-Ordered, starts_sending-Ordered, finishes-Ordered, takes_lock-Ordered,
  gives_lock-Ordered, goes_past-Ordered,
}

-- The invariant holds and the order is kept, for some owners, stages and times.
abbrev pub Good : (ℕ → List Request) → System → Type 0
Good requests s = (g : Ghost) × (o : Times) × Inv requests s g × Ordered requests s g o

module _ {requests : ℕ → List Request} (w : WritesOnly requests) {s : System} (g : Ghost)
    (o : Times) (inv : Inv requests s g) (ord : Ordered requests s g o) (b : ℕ) where
  known : (x : Call) → s.calls b ≡ x → CallOk requests s g b x
  known x e = subst (CallOk requests s g b) e (inv.call_ok b)

  made_call : (x : Call) → is_unsent x ≡ false → s.calls b ≡ x → is_unsent (s.calls b) ≡ false
  made_call x h e = ap is_unsent e ∙ h

  start-Good :
      s.calls b ≡ unsent
      → Good requests (
          call b
            (if ltb 1 (length (requests b)) then locking (requests b) else sending (requests b))
            (record s { exec_count_down = update s.exec_count_down b (length (requests b)) }))
  start-Good e = elim (Bool-cases (ltb 1 (length (requests b)))) [
    | inl many ↦ rw many (
      g,
      o,
      made-Inv inv b (locking (requests b)) e (known unsent e),
      starts_locking-Ordered inv ord b e (known unsent e) many (w.sorted b),
    )
    | inr one ↦ rw one (
      g,
      o,
      made-Inv inv b (sending (requests b)) e (
          Unsent-all (g.stage b) (requests b) (requests b) (known unsent e) (w.sorted b)
            (w.writes b) (λ c m. m)),
      starts_sending-Ordered inv ord b e (known unsent e) one,
    )
  ]

  -- The stages of `b` itself, when one is set.
  put-Unsent :
      (c : ℕ) (x : Stage) (rs : List Request)
      → Unsent (update (g.stage b) c x) (requests b) rs
      → Unsent ((put b c x g).stage b) (requests b) rs
  put-Unsent c x rs h =
      subst (λ f. Unsent f (requests b) rs) (sym (update_same g.stage b (update (g.stage b) c x))) h

  -- The claims of the calls, once a message is sent to a cown that sleeps, or does not.
  new_claims :
      (r : Request) (more : List Request)
      → s.calls b ≡ sending (r ∷ more)
      → (c b' : ℕ) → update g.owner r.cown (sender b) c ≡ sender b'
      → claims c (update s.calls b (sent (r ∷ more) true) b') ≡ true
  new_claims r more e c b' h = elim (Bool-cases (c == r.cown)) [
    | inl d ↦ let same : b' ≡ b = ground (arith, h, d) in rw same (rw (==_self b) d)
    | inr d ↦
        update-forward (λ k x. claims c x ≡ true) s.calls b (sent (r ∷ more) true) b'
          (λ k. let stuck : false ≡ true = rw e at k in cc) (ord.sender_claims b' c (rw d at h))
  ]

  old_claims :
      (r : Request) (more : List Request)
      → s.calls b ≡ sending (r ∷ more)
      → (c b' : ℕ) → g.owner c ≡ sender b'
      → claims c (update s.calls b (sent (r ∷ more) false) b') ≡ true
  old_claims r more e c b' h =
      update-forward (λ k x. claims c x ≡ true) s.calls b (sent (r ∷ more) false) b'
        (λ k. rw e at k) (ord.sender_claims b' c h)

  enqueue-Good :
      (r : Request) (more : List Request)
      → s.calls b ≡ sending (r ∷ more)
      → Good requests (
          call b
            (sent (r ∷ more) (enqueue b (s.queue r.cown)).0)
            (set_queue r.cown (enqueue b (s.queue r.cown)).1 s))
  unfolding enqueue set_queue
  enqueue-Good r more e =
      let k = known (sending (r ∷ more)) e in
      let rest : Unsent (update (g.stage b) r.cown queued) (requests b) more =
        Unsent-Above (g.stage b) (requests b) r.cown queued more k.0.3 k.1 in
      let made = made_call (sending (r ∷ more)) refl e in
      elim (Option-cases (s.queue r.cown)) [
        | inl asleep ↦ rw asleep (
          own r.cown (sender b) (put b r.cown queued g),
          o,
          sent_asleep-Inv inv b r.cown (sent (r ∷ more) true) made k.0.0 k.0.2 asleep (
            (update_same g.owner r.cown (sender b), rw (==_self r.cown) refl),
            ((k.0.1, k.0.2, k.0.3), put-Unsent r.cown queued more rest),
          ),
          sends-Ordered inv ord b r more true e k.0.0 k.0.2 (update g.owner r.cown (sender b))
              (some (b ∷ [])) ((λ y n m m'. absurd (n refl)), tt) k.0.3 (new_claims r more e)
              (λ c t h. ground (arith, h)) (λ c b' h. ground (arith, h)),
        )
        | inr (q, awake) ↦ rw awake (
          put b r.cown queued g,
          o,
          sent_awake-Inv inv b r.cown (sent (r ∷ more) false) made k.0.0 k.0.2 q awake
              ((k.0.1, k.0.2, k.0.3), put-Unsent r.cown queued more rest),
          sends-Ordered inv ord b r more false e k.0.0 k.0.2 g.owner (some (q ++ b ∷ []))
              (youngest inv ord b r more false e k.0.0 k.0.2 q awake) k.0.3 (old_claims r more e)
              (λ c t h. h) (λ c b' h. h),
        )
      ]

  unlock-Good :
      (r : Request) (more : List Request) (needs_sched : Bool)
      → s.calls b ≡ sent (r ∷ more) needs_sched
      → Good requests (
          call b
            (after_sent (r ∷ more) needs_sched)
            (if ltb 1 (length (requests b)) then set_lock r.cown false s else s))
  unfolding after_sent set_lock
  unlock-Good r more needs_sched e = elim (Bool-cases (ltb 1 (length (requests b)))) [
    | inl many ↦ rw many (
      g,
      record o { holder = update o.holder r.cown b },
      call-Inv (set_lock-Inv inv r.cown false) b _ made after,
      gives_lock-Ordered inv ord b r more needs_sched e above many,
    )
    | inr one ↦ rw one (
      g,
      o,
      call-Inv inv b _ made after,
      goes_past-Ordered inv ord b r more needs_sched e above one,
    )
  ]
    where
      made : is_unsent (s.calls b) ≡ false
      made = made_call (sent (r ∷ more) needs_sched) refl e

      above_known : (n : Bool) → CallOk requests s g b (sent (r ∷ more) n) → Above r.cown more
      above_known true h = h.1.0.2
      above_known false h = h.0.2

      above : Above r.cown more
      above = above_known needs_sched (known (sent (r ∷ more) needs_sched) e)

      after_known :
          (n : Bool)
          → CallOk requests s g b (sent (r ∷ more) n)
          → CallOk requests s g b (after_sent (r ∷ more) n)
      after_known true h = h
      after_known false h = h.1

      after : CallOk requests s g b (after_sent (r ∷ more) needs_sched)
      after = after_known needs_sched (known (sent (r ∷ more) needs_sched) e)

  claimed_last-Good :
      (r : Request)
      → s.calls b ≡ claimed (r ∷ [])
      → Good requests (call b returned (schedule r.cown s))
  claimed_last-Good r e =
      let k = known (claimed (r ∷ [])) e in
      (
        own r.cown waiting g,
        o,
        scheduled-Inv inv b r.cown returned (made_call (claimed (r ∷ [])) refl e) k.0.0 tt refl,
        schedules-Ordered inv ord b r [] e k.0.0,
      )

  -- A body that has still to send waits for something.
  more_to_come :
      (r r' : Request) (more : List Request)
      → r.cown < r'.cown
      → g.stage b r'.cown ≡ away
      → member r'.cown (requests b) ≡ true
      → missing (update (g.stage b) r.cown acquired) (requests b) ≡ 0
      → ⊥
  more_to_come r r' more lt a m z =
      let le : waits (update (g.stage b) r.cown acquired r'.cown)
          ≤ missing (update (g.stage b) r.cown acquired) (requests b) =
        waits_le_missing (update (g.stage b) r.cown acquired) r'.cown (requests b) m in
      let one : waits (update (g.stage b) r.cown acquired r'.cown) ≡ 1 =
        rw (==_ne r'.cown r.cown (omega arith), a) refl in
      absurd (omega arith)

  claimed_more-Good :
      (r r' : Request) (more : List Request)
      → s.calls b ≡ claimed (r ∷ r' ∷ more)
      → Good requests (
          call b
            (if r.is_read then adding (r ∷ r' ∷ more) else sending (r' ∷ more))
            (set_queue r.cown (dequeue (s.queue r.cown)) (count_down b s)))
  unfolding dequeue
  claimed_more-Good r r' more e =
      let k = known (claimed (r ∷ r' ∷ more)) e in
      let (q, first) = IsFirst-queue b (s.queue r.cown) k.0.1 in
      let made = made_call (claimed (r ∷ r' ∷ more)) refl e in
      let counts = acquired_counts inv b r.cown (sending (r' ∷ more)) made k.0.0 w q first in
      rw (k.1.0.0, first)
        (
          own r.cown (body b) (put b r.cown acquired g),
          o,
          acquired-Inv inv b r.cown (sending (r' ∷ more)) made k.0.0 w q first
              (put-Unsent r.cown acquired (r' ∷ more) (
                Unsent-gone (g.stage b) (requests b) r.cown acquired (r' ∷ more)
                  (λ a. ground (arith, inv.in_queue b r.cown, first, a)) k.1.1))
              refl,
          acquires-Ordered inv ord b r (r' ∷ more) r' more q e k.0.0 first
              (λ z. omega (arith, counts.0))
              (λ z. more_to_come r r' more k.1.0.2.0 k.1.1.0.0 k.1.1.0.2 (sym counts.2 ∙ z)),
        )

  pub fast_send-Good :
      (x : Call) {s' : System}
      → s.calls b ≡ x
      → fast_send (requests b) s b x ≡ some s'
      → Good requests s'
  unfolding fast_send set_lock
  fast_send-Good unsent e h = subst (Good requests) (some-injective _ _ h) (start-Good e)
  fast_send-Good (locking []) e h = subst (Good requests) (some-injective _ _ h) (
    g,
    stamp_now inv ord b,
    call-Inv inv b (sending (requests b)) (made_call (locking []) refl e) (
        Unsent-all (g.stage b) (requests b) (requests b) (known (locking []) e) (w.sorted b)
          (w.writes b) (λ c m. m)),
    commits-Ordered inv ord b e (known (locking []) e),
  )
  fast_send-Good (locking (r ∷ more)) {s'} e h = elim (Bool-cases (s.enqueue_lock r.cown)) [
    | inl l ↦ let stuck : none ≡ some s' = rw l at h in cc
    | inr l ↦ subst (Good requests) (some-injective _ _ (rw l at h)) (
      g,
      record o { holder = update o.holder r.cown b },
      call-Inv (set_lock-Inv inv r.cown true) b (locking more)
          (made_call (locking (r ∷ more)) refl e) (known (locking (r ∷ more)) e),
      takes_lock-Ordered inv ord b r more e l,
    )
  ]
  fast_send-Good (sending []) e h = subst (Good requests) (some-injective _ _ h) (
    g,
    o,
    call-Inv inv b returned (made_call (sending []) refl e) tt,
    finishes-Ordered inv ord b e,
  )
  fast_send-Good (sending (r ∷ more)) e h =
      subst (Good requests) (some-injective _ _ h) (enqueue-Good r more e)
  fast_send-Good (sent [] n) e h = cc
  fast_send-Good (sent (r ∷ more) n) e h =
      subst (Good requests) (some-injective _ _ h) (unlock-Good r more n e)
  fast_send-Good (claimed []) e h = cc
  fast_send-Good (claimed (r ∷ [])) e h =
      subst (Good requests) (some-injective _ _ h) (claimed_last-Good r e)
  fast_send-Good (claimed (r ∷ r' ∷ more)) e h =
      subst (Good requests) (some-injective _ _ h) (claimed_more-Good r r' more e)
  fast_send-Good (adding rs) e h = absurd (known (adding rs) e)
  fast_send-Good returned e h = cc
