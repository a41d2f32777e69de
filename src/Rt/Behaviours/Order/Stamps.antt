-- ===== src/Rt/Behaviours/Order/Stamps.antt =====
-- The stamps of the bodies in a queue, and the step at which a call gets its stamp.
use verona.Prelude.{
  ℕ, suc, ◌<◌, ◌≡◌, ◌≢◌, ◌++◌, sym, refl, ◌∙◌, List, [], ◌∷◌, true, ◌==◌, Option, none, some,
  update, arith, inl, inr, Bool-cases, eq_of_==, ne_of_==, ==_self, ==_ne, subst,
}
use verona.Rt.Behaviours.Defs.{
  Request, Call, unsent, locking, sending, sent, claimed, adding, returned, System, call,
}
use verona.Rt.Behaviours.Holding.{put, Stage, away, Ghost, member, times, times_in, Inv, CallOk}
use verona.Rt.Behaviours.Missing.{times-snoc}
use verona.Rt.Behaviours.Order.Defs.{
  Times, several, keeps_lock, pending, committed, level, Chain, InOrder, Ordered,
}
use verona.Rt.Behaviours.Order.Calls.{goes_on-Ordered, kept_after}

pub committed_of_stage :
    {requests : ℕ → List Request} {s : System} {g : Ghost} (b c : ℕ)
    → Inv requests s g
    → g.stage b c ≢ away
    → committed (s.calls b) ≡ true
committed_of_stage {requests} {s} {g} b c inv ne = by_call (s.calls b) (inv.call_ok b)
  where
    by_call : (x : Call) → CallOk requests s g b x → committed x ≡ true
    by_call unsent h = absurd (ne (h c))
    by_call (locking rs) h = absurd (ne (h c))
    by_call (sending rs) h = refl
    by_call (sent rs n) h = refl
    by_call (claimed rs) h = refl
    by_call (adding rs) h = refl
    by_call returned h = refl

-- A call that has its stamp keeps the lock of a cown to which it has still to send.
pub pending_keeps :
    (all : List Request) (c : ℕ) (x : Call)
    → committed x ≡ true
    → pending c x ≡ true
    → keeps_lock all c x ≡ true
pending_keeps all c unsent h p = cc
pending_keeps all c (locking rs) h p = cc
pending_keeps all c (sending rs) h p = p
pending_keeps all c (sent [] n) h p = cc
pending_keeps all c (sent (r ∷ rs) n) h p = elim (Bool-cases (c == r.cown)) [
  | inl e ↦ rw e refl
  | inr e ↦ rw e p
]
pending_keeps all c (claimed []) h p = cc
pending_keeps all c (claimed (r ∷ rs)) h p = p
pending_keeps all c (adding rs) h p = cc
pending_keeps all c returned h p = cc

module _ (requests : ℕ → List Request) (stamp : ℕ → ℕ) where
  pub Chain-update :
      (b v : ℕ) (q : List ℕ)
      → times b q ≡ 0
      → Chain requests stamp q
      → Chain requests (update stamp b v) q
  Chain-update b v [] z h = tt
  Chain-update b v (x ∷ q) z h = (
    λ y n m m'.
        rw (==_ne y b (λ e. n (rw e (omega arith))), ==_ne x b (λ e. ground (arith, z, e)))
          (h.0 y n m m'),
    Chain-update b v q (omega arith) h.1,
  )

  pub InOrder-update :
      (b v : ℕ) (q : Option (List ℕ))
      → times_in b q ≡ 0
      → InOrder requests stamp q
      → InOrder requests (update stamp b v) q
  InOrder-update b v none z h = tt
  InOrder-update b v (some q) z h = Chain-update b v q z h

  pub Chain-snoc :
      (b : ℕ) (q : List ℕ)
      → ((y : ℕ)
          → times y q ≢ 0
          → several (requests y) ≡ true
          → several (requests b) ≡ true
          → stamp y < stamp b)
      → Chain requests stamp q
      → Chain requests stamp (q ++ b ∷ [])
  Chain-snoc b [] k h = (λ y n m m'. absurd (n refl), tt)
  Chain-snoc b (x ∷ q) k h = (
    λ y n m m'. elim (Bool-cases (y == b)) [
      | inl e ↦
          subst (λ n. stamp x < stamp n) (sym (eq_of_== y b e))
            (k x (λ z. ground (arith, z)) m
              (subst (λ n. several (requests n) ≡ true) (eq_of_== y b e) m'))
      | inr e ↦ h.0 y (λ z. n (ground (arith, times-snoc y b q, z, e))) m m'
    ],
    Chain-snoc b q (λ y n m m'. k y (λ z. n (omega arith)) m m') h.1,
  )

module _ {requests : ℕ → List Request} {s : System} {g : Ghost} {o : Times} (inv : Inv requests s g)
    (ord : Ordered requests s g o) (b : ℕ) where
  abbrev pub stamp_now : Times
  stamp_now = record o { stamp = update o.stamp b o.clock; clock = suc o.clock }

  -- A call that has all its locks is younger than all that have sent.
  pub commits-Ordered :
      s.calls b ≡ locking []
      → ((c : ℕ) → g.stage b c ≡ away)
      → Ordered requests (call b (sending (requests b)) s) g stamp_now
  commits-Ordered e all_away =
      goes_on-Ordered ord b (sending (requests b)) s.exec_count_down s.enqueue_lock stamp_now
        (λ c m a. m) (λ c h. ground (arith, ord.sender_claims b c h, e)) (λ b' c a z. z)
        (λ c m k. ord.keeper_holds b c m (rw e k)) (λ b' c ne m k. ord.keeper_holds b' c m k)
        (λ c l.
          kept_after ord b (sending (requests b)) c (o.holder c) (λ _. rw e refl)
            (ord.lock_kept c l))
        (λ m k. rw (==_self b) (omega arith))
        (λ b' ne m k. rw (==_ne b' b ne) (omega (arith, ord.stamped b' m k))) older_after
        (λ c.
          InOrder-update requests o.stamp b o.clock (s.queue c)
            (inv.in_queue b c ∙ rw (all_away c) refl) (ord.in_order c))
        tt
    where
      older_after :
          (b0 b' c : ℕ)
          → several (requests b0) ≡ true
          → several (requests b') ≡ true
          → committed (update s.calls b (sending (requests b)) b') ≡ true
          → member c (requests b') ≡ true
          → level (g.stage b' c) < level (g.stage b0 c)
          → update o.stamp b o.clock b0 < update o.stamp b o.clock b'
      older_after b0 b' c m m' k mem lt =
          let other : b0 ≢ b = λ d. ground (arith, lt, d, all_away c) in
          let sent_before : committed (s.calls b0) ≡ true =
            committed_of_stage b0 c inv (λ d. ground (arith, lt, d)) in
          let before : o.stamp b0 < o.clock = ord.stamped b0 m sent_before in
          rw (==_ne b0 b other) (elim (Bool-cases (b' == b)) [
            | inl d ↦ rw d before
            | inr d ↦ rw d (ord.older b0 b' c m m' (rw d at k) mem lt)
          ])

  -- The first message of a queue is older than those behind it, and stays so when it leaves.
  pub pop-older :
      (c0 : ℕ) (q : List ℕ) (x : Stage)
      → s.queue c0 ≡ some (b ∷ q)
      → level x ≡ 2
      → (b0 b' c : ℕ) → several (requests b0) ≡ true
      → several (requests b') ≡ true
      → committed (s.calls b') ≡ true
      → member c (requests b') ≡ true
      → level ((put b c0 x g).stage b' c) < level ((put b c0 x g).stage b0 c)
      → o.stamp b0 < o.stamp b'
  pop-older c0 q x eq two b0 b' c m m' k mem lt = elim (Bool-cases (b0 == b)) [
    | inr d ↦
        ord.older b0 b' c m m' k mem
          (ground (arith, lt, two, inv.in_queue b c0, eq, ne_of_== b0 b d))
    | inl d ↦ elim (Bool-cases (c == c0)) [
      | inr f ↦ ord.older b0 b' c m m' k mem (ground (arith, lt, ne_of_== c c0 f))
      | inl f ↦
          let same : b0 ≡ b = eq_of_== b0 b d in
          let here : c ≡ c0 = eq_of_== c c0 f in
          let ne : b' ≢ b = λ k'. ground (arith, lt, same, k') in
          let queued_now = inv.in_queue b' c0 in
          let first = inv.in_queue b c0 in
          let chain : Chain requests o.stamp (b ∷ q) =
            subst (InOrder requests o.stamp) eq (ord.in_order c0) in
          elim (Bool-cases (times b' q == 0)) [
            | inl z ↦
                ord.older b0 b' c m m' k mem
                  (ground (arith, lt, two, same, here, ne, queued_now, first, eq, eq_of_== _ _ z))
            | inr z ↦
                subst (λ n. o.stamp n < o.stamp b') (sym same)
                  (chain.0 b' (ne_of_== _ _ z) (subst (λ n. several (requests n) ≡ true) same m) m')
          ]
    ]
  ]
