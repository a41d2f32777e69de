-- ===== src/Rt/Behaviours/Waiting.antt =====
-- What the calls and the bodies wait for when nothing can go on.
use verona.Prelude.{
  ℕ, zero, suc, ◌<◌, ◌≡◌, ◌≢◌, ◌⊎◌, ap, refl, ◌∙◌, List, [], ◌∷◌, true, false, ◌==◌, Option, none,
  some, arith, inl, inr, Bool-cases, eq_of_==, ne_of_==, subst,
}
use verona.Rt.Behaviours.Defs.{
  Request, Call, unsent, locking, sending, sent, claimed, adding, returned, idle, stepping, System,
  fast_send,
}
use verona.Rt.Behaviours.Holding.{
  Owner, nobody, waiting, sender, hand, body, Stage, away, queued, taken, acquired, released, Ghost,
  waits, missing, member, Above, asleep, is_nobody, is_unsent, CallOk, Inv,
}
use verona.Rt.Behaviours.Order.Defs.{
  Times, several, keeps_lock, claims, works_for, LocksInOrder, Ordered,
}
use verona.Rt.Behaviours.Order.Stamps.{committed_of_stage}

-- Nothing can go on but a new call: each call that has begun waits for a lock or has returned, no cown
-- is in the scheduler queues, and the threads are idle.
pub record IsQuiet (requests : ℕ → List Request) (s : System) : Type 0 where
  pub calls_wait :
      (b : ℕ) → is_unsent (s.calls b) ≡ false → fast_send (requests b) s b (s.calls b) ≡ none
  pub none_scheduled : (c : ℕ) → s.scheduled c ≡ 0
  pub threads_idle : (t : ℕ) → s.turns t ≡ idle

-- A request that is waited for.
first_missing :
    (st : ℕ → Stage) (rs : List Request)
    → missing st rs ≢ 0
    → (c : ℕ) × (member c rs ≡ true) × (waits (st c) ≡ 1)
first_missing st [] h = absurd (h refl)
first_missing st (r ∷ rs) h = elim (Bool-cases (waits (st r.cown) == 1)) [
  | inl e ↦ (r.cown, ground arith, eq_of_== _ _ e)
  | inr e ↦
      let (c, m, k) = first_missing st rs (λ z. h (ground (arith, z, e))) in
      (c, ground (arith, m), k)
]

several_of_missing :
    (st : ℕ → Stage) (c : ℕ) (rs : List Request)
    → member c rs ≡ true
    → waits (st c) ≡ 0
    → missing st rs ≢ 0
    → several rs ≡ true
several_of_missing st c [] m w h = absurd (h refl)
several_of_missing st c (r ∷ []) m w h = elim (Bool-cases (c == r.cown)) [
  | inl e ↦ absurd (h (ground (arith, w, eq_of_== c r.cown e, ap st (eq_of_== c r.cown e))))
  | inr e ↦ let stuck : false ≡ true = rw e at m in cc
]
several_of_missing st c (r ∷ r' ∷ rs) m w h = ground arith

asleep-none : (q : Option (List ℕ)) → asleep q ≡ true → q ≡ none
asleep-none none h = refl
asleep-none (some q) h = cc

module _ {requests : ℕ → List Request} {s : System} {g : Ghost} {o : Times} (inv : Inv requests s g)
    (ord : Ordered requests s g o) (quiet : IsQuiet requests s) where
  later_lock :
      (h : ℕ) (r r' : Request) (more' : List Request)
      → LocksInOrder (requests h) (locking (r' ∷ more'))
      → keeps_lock (requests h) r.cown (locking (r' ∷ more')) ≡ true
      → Above r.cown (r' ∷ more')
  later_lock h r r' more' known kept = elim (Bool-cases (member r.cown (r' ∷ more'))) [
    | inl m ↦ let stuck : false ≡ true = rw m at kept in cc
    | inr m ↦ known.1 r.cown (rw m at kept) m
  ]

  -- A call that waits has not begun, has returned, or waits for a lock.
  waits_or_returned :
      (b : ℕ) (x : Call)
      → CallOk requests s g b x
      → (is_unsent x ≡ false → fast_send (requests b) s b x ≡ none)
      → (x ≡ unsent)
        ⊎ (x ≡ returned)
        ⊎ ((r : Request) × (more : List Request) × (x ≡ locking (r ∷ more))
            × (s.enqueue_lock r.cown ≡ true))
  unfolding fast_send
  waits_or_returned b unsent k h = inl refl
  waits_or_returned b (locking []) k h = cc (h refl)
  waits_or_returned b (locking (r ∷ more)) k h = elim (Bool-cases (s.enqueue_lock r.cown)) [
    | inl l ↦ inr (inr (r, more, refl, l))
    | inr l ↦ cc (rw l at (h refl))
  ]
  waits_or_returned b (sending []) k h = cc (h refl)
  waits_or_returned b (sending (r ∷ rs)) k h = cc (h refl)
  waits_or_returned b (sent [] true) k h = absurd k.0
  waits_or_returned b (sent [] false) k h = absurd k
  waits_or_returned b (sent (r ∷ rs) n) k h = cc (h refl)
  waits_or_returned b (claimed []) k h = absurd k.0
  waits_or_returned b (claimed (r ∷ [])) k h = cc (h refl)
  waits_or_returned b (claimed (r ∷ r' ∷ rs)) k h = cc (h refl)
  waits_or_returned b (adding rs) k h = absurd k
  waits_or_returned b returned k h = inr (inl refl)

  pub kind :
      (b : ℕ)
      → (s.calls b ≡ unsent)
        ⊎ (s.calls b ≡ returned)
        ⊎ ((r : Request) × (more : List Request) × (s.calls b ≡ locking (r ∷ more))
            × (s.enqueue_lock r.cown ≡ true))
  kind b = waits_or_returned b (s.calls b) (inv.call_ok b) (quiet.calls_wait b)

  -- The call that has the lock waits for a lock of a later cown.
  pub next_waiting :
      (r : Request)
      → s.enqueue_lock r.cown ≡ true
      → (h : ℕ) × (r' : Request) × (more : List Request) × (s.calls h ≡ locking (r' ∷ more))
        × (s.enqueue_lock r'.cown ≡ true)
        × (r.cown < r'.cown)
  next_waiting r l = by_holder (kind h)
    where
      h : ℕ
      h = o.holder r.cown

      held : keeps_lock (requests h) r.cown (s.calls h) ≡ true
      held = (ord.lock_kept r.cown l).1

      by_holder :
          (s.calls h ≡ unsent)
            ⊎ (s.calls h ≡ returned)
            ⊎ ((r' : Request) × (more : List Request) × (s.calls h ≡ locking (r' ∷ more))
                × (s.enqueue_lock r'.cown ≡ true))
          → (h : ℕ) × (r' : Request) × (more : List Request) × (s.calls h ≡ locking (r' ∷ more))
            × (s.enqueue_lock r'.cown ≡ true)
            × (r.cown < r'.cown)
      by_holder (inl e') = let stuck : false ≡ true = rw e' at held in cc
      by_holder (inr (inl e')) = let stuck : false ≡ true = rw e' at held in cc
      by_holder (inr (inr (r', more', e', l'))) =
          let known : LocksInOrder (requests h) (locking (r' ∷ more')) =
            subst (LocksInOrder (requests h)) e' (ord.locks_in_order h) in
          let kept : keeps_lock (requests h) r.cown (locking (r' ∷ more')) ≡ true =
            subst (λ x. keeps_lock (requests h) r.cown x ≡ true) e' held in
          (h, r', more', e', l', (later_lock h r r' more' known kept).0)

  -- Why a cown is awake while a message of `b` is in its queue: a body holds it and waits itself.
  module _ (settled : (b : ℕ) → (s.calls b ≡ unsent) ⊎ (s.calls b ≡ returned)) where
    no_claims : (b c : ℕ) → claims c (s.calls b) ≡ true → ⊥
    no_claims b c h = by_kind (settled b)
      where
        by_kind : (s.calls b ≡ unsent) ⊎ (s.calls b ≡ returned) → ⊥
        by_kind (inl e) = let stuck : false ≡ true = rw e at h in cc
        by_kind (inr e) = let stuck : false ≡ true = rw e at h in cc

    -- A cown is asleep, or a body that waits has acquired it.
    held_by :
        (c : ℕ) (x : Owner)
        → g.owner c ≡ x
        → (x ≡ nobody) ⊎ ((b : ℕ) × (g.stage b c ≡ acquired) × (s.exec_count_down b ≢ 0))
    held_by c nobody e = inl refl
    held_by c waiting e = absurd (ground (arith, inv.scheduled_once c, quiet.none_scheduled c, e))
    held_by c (sender b) e = absurd (no_claims b c (ord.sender_claims b c e))
    held_by c (hand t) e =
        let stuck : false ≡ true = rw (quiet.threads_idle t) at (ord.hand_handles t c e) in cc
    held_by c (body b) e =
        let had : g.stage b c ≡ acquired = ord.body_acquired b c e in
        inr (b, had, λ z. idle_works (ord.complete_works b c had z))
      where
        idle_works : (t : ℕ) × (works_for b (s.turns t) ≡ true) → ⊥
        idle_works (t, k) = let stuck : false ≡ true = rw (quiet.threads_idle t) at k in cc

    in_queue_now :
        (b c : ℕ)
        → s.calls b ≡ returned
        → member c (requests b) ≡ true
        → waits (g.stage b c) ≡ 1
        → g.stage b c ≡ queued
    in_queue_now b c e m k = by_stage (g.stage b c) refl k
      where
        steps_idle : (t : ℕ) × (s.turns t ≡ stepping c b) → ⊥
        steps_idle (t, d) = ground (arith, d, quiet.threads_idle t)

        by_stage : (x : Stage) → g.stage b c ≡ x → waits x ≡ 1 → x ≡ queued
        by_stage away a h = let stuck : false ≡ true = rw e at (ord.unsent_pending b c m a) in cc
        by_stage queued a h = refl
        by_stage taken a h = absurd (steps_idle (ord.taken_steps b c a))
        by_stage acquired a h = absurd (omega arith)
        by_stage released a h = absurd (omega arith)

    not_asleep : (b c : ℕ) → g.stage b c ≡ queued → g.owner c ≡ nobody → ⊥
    not_asleep b c q free = ground (arith, inv.sleeps c, free, inv.in_queue b c, q)

    acquired_returned : (b c : ℕ) → g.stage b c ≡ acquired → s.calls b ≡ returned
    acquired_returned b c had = by_kind (settled b)
      where
        by_kind : (s.calls b ≡ unsent) ⊎ (s.calls b ≡ returned) → s.calls b ≡ returned
        by_kind (inr e) = e
        by_kind (inl e) =
            let stuck : false ≡ true =
              rw e at (committed_of_stage b c inv (λ z. ground (arith, had, z))) in
            cc

    -- A body that waits, waits for a body with several requests, which waits as well.
    waits_for :
        (b : ℕ)
        → s.calls b ≡ returned
        → s.exec_count_down b ≢ 0
        → (b' : ℕ) × (c : ℕ) × (s.calls b' ≡ returned)
          × (s.exec_count_down b' ≢ 0)
          × (several (requests b') ≡ true)
          × (g.stage b' c ≡ acquired)
          × (g.stage b c ≡ queued)
          × (member c (requests b) ≡ true)
    waits_for b e pos =
        let (c, m, k) =
          first_missing (g.stage b) (requests b) (λ z. pos (inv.counts b (rw e refl) ∙ z)) in
        let inside : g.stage b c ≡ queued = in_queue_now b c e m k in
        elim (held_by c (g.owner c) refl) [
          | inl free ↦ absurd (not_asleep b c inside free)
          | inr (b', had, pos') ↦
              let ret : s.calls b' ≡ returned = acquired_returned b' c had in
              (
                b',
                c,
                ret,
                pos',
                several_of_missing (g.stage b') c (requests b')
                    (inv.requested b' c (λ z. ground (arith, had, z))) (rw had refl)
                    (λ z. pos' (inv.counts b' (rw ret refl) ∙ z)),
                had,
                inside,
                m,
              )
        ]

    -- In the order of the stamps no body with several requests is the first to wait.
    none_waits :
        (n b : ℕ)
        → s.calls b ≡ returned
        → several (requests b) ≡ true
        → o.stamp b < n
        → s.exec_count_down b ≡ 0
    none_waits zero b e many lt = absurd (omega arith)
    none_waits (suc n) b e many lt = elim (Bool-cases (s.exec_count_down b == 0)) [
      | inl z ↦ eq_of_== _ _ z
      | inr z ↦
          let (b', c, ret, pos, many', had, inside, m) = waits_for b e (ne_of_== _ _ z) in
          let before : o.stamp b' < o.stamp b =
            ord.older b' b c many' many (rw e refl) m (rw (had, inside) (omega arith)) in
          absurd (pos (none_waits n b' ret many' (omega arith)))
    ]

    pub all_done : (b : ℕ) → s.calls b ≡ returned → s.exec_count_down b ≡ 0
    all_done b e = elim (Bool-cases (s.exec_count_down b == 0)) [
      | inl z ↦ eq_of_== _ _ z
      | inr z ↦
          let (b', c, ret, pos, many', had, inside, m) = waits_for b e (ne_of_== _ _ z) in
          absurd (pos (none_waits (suc (o.stamp b')) b' ret many' (omega arith)))
    ]

    pub all_asleep : (c : ℕ) → s.queue c ≡ none
    all_asleep c = elim (held_by c (g.owner c) refl) [
      | inl free ↦ asleep-none (s.queue c) (inv.sleeps c ∙ ap is_nobody free)
      | inr (b, had, pos) ↦ absurd (pos (all_done b (acquired_returned b c had)))
    ]

    pub all_unlocked : (c : ℕ) → s.enqueue_lock c ≡ false
    all_unlocked c = elim (Bool-cases (s.enqueue_lock c)) [
      | inr l ↦ l
      | inl l ↦ absurd (no_lock (settled (o.holder c)) (ord.lock_kept c l).1)
    ]
      where
        no_lock :
            (s.calls (o.holder c) ≡ unsent) ⊎ (s.calls (o.holder c) ≡ returned)
            → keeps_lock (requests (o.holder c)) c (s.calls (o.holder c)) ≡ true
            → ⊥
        no_lock (inl e) k = let stuck : false ≡ true = rw e at k in cc
        no_lock (inr e) k = let stuck : false ≡ true = rw e at k in cc
