-- ===== src/Rt/Behaviours/Order/Calls.antt =====
-- The steps of `fast_send` that send nothing keep the order.
use verona.Prelude.{
  ℕ, ◌<◌, ◌≡◌, ◌≢◌, ap, sym, refl, ◌∙◌, List, Bool, true, false, ◌==◌, update, update-each, inl,
  inr, Bool-cases, eq_of_==, ne_of_==, ==_self, subst,
}
use verona.Rt.Behaviours.Defs.{Request, Call, System, call}
use verona.Rt.Behaviours.Holding.{sender, away, acquired, Ghost, member}
use verona.Rt.Behaviours.Order.Defs.{
  Times, several, keeps_lock, pending, claims, committed, level, InOrder, LocksInOrder, Ordered,
}

module _ {requests : ℕ → List Request} {s : System} {g : Ghost} {o : Times}
    (ord : Ordered requests s g o) (b : ℕ) (x : Call) where
  -- The call for `b` goes on to `x`, with locks `locks`, counts `n` and times `o'`.
  pub goes_on-Ordered :
      (n : ℕ → ℕ) (locks : ℕ → Bool) (o' : Times)
      → ((c : ℕ) → member c (requests b) ≡ true → g.stage b c ≡ away → pending c x ≡ true)
      → ((c : ℕ) → g.owner c ≡ sender b → claims c x ≡ true)
      → ((b' c : ℕ) → g.stage b' c ≡ acquired → n b' ≡ 0 → s.exec_count_down b' ≡ 0)
      → ((c : ℕ)
          → several (requests b) ≡ true
          → keeps_lock (requests b) c x ≡ true
          → (locks c ≡ true) × (o'.holder c ≡ b))
      → ((b' c : ℕ)
          → b' ≢ b
          → several (requests b') ≡ true
          → keeps_lock (requests b') c (s.calls b') ≡ true
          → (locks c ≡ true) × (o'.holder c ≡ b'))
      → ((c : ℕ)
          → locks c ≡ true
          → (several (requests (o'.holder c)) ≡ true)
            × (keeps_lock (requests (o'.holder c)) c (update s.calls b x (o'.holder c)) ≡ true))
      → (several (requests b) ≡ true → committed x ≡ true → o'.stamp b < o'.clock)
      → ((b' : ℕ)
          → b' ≢ b
          → several (requests b') ≡ true
          → committed (s.calls b') ≡ true
          → o'.stamp b' < o'.clock)
      → ((b0 b' c : ℕ)
          → several (requests b0) ≡ true
          → several (requests b') ≡ true
          → committed (update s.calls b x b') ≡ true
          → member c (requests b') ≡ true
          → level (g.stage b' c) < level (g.stage b0 c)
          → o'.stamp b0 < o'.stamp b')
      → ((c : ℕ) → InOrder requests o'.stamp (s.queue c))
      → LocksInOrder (requests b) x
      → Ordered requests (call b x (record s { exec_count_down = n; enqueue_lock = locks })) g o'
  goes_on-Ordered n locks o' hp hc hn hk hk' hl hs hs' ho hq hx = record {
    unsent_pending = λ b' c m a. elim (Bool-cases (b' == b)) [
      | inl e ↦ rw e (
          hp c (subst (λ k. member c (requests k) ≡ true) (eq_of_== b' b e) m)
            (subst (λ k. g.stage k c ≡ away) (eq_of_== b' b e) a))
      | inr e ↦ rw e (ord.unsent_pending b' c m a)
    ];
    sender_claims = λ b' c h. elim (Bool-cases (b' == b)) [
      | inl e ↦ rw e (hc c (h ∙ ap sender (eq_of_== b' b e)))
      | inr e ↦ rw e (ord.sender_claims b' c h)
    ];
    hand_handles = ord.hand_handles;
    taken_steps = ord.taken_steps;
    body_acquired = ord.body_acquired;
    complete_works = λ b' c a z. ord.complete_works b' c a (hn b' c a z);
    keeper_holds = λ b' c m k. elim (Bool-cases (b' == b)) [
      | inl e ↦
          let same : b' ≡ b = eq_of_== b' b e in
          let kept =
            hk c (subst (λ n. several (requests n) ≡ true) same m)
              (subst (λ n. keeps_lock (requests n) c x ≡ true) same (rw e at k)) in
          (kept.0, kept.1 ∙ sym same)
      | inr e ↦ hk' b' c (ne_of_== b' b e) m (rw e at k)
    ];
    lock_kept = hl;
    stamped = λ b' m k. elim (Bool-cases (b' == b)) [
      | inl e ↦
          let same : b' ≡ b = eq_of_== b' b e in
          subst (λ n. o'.stamp n < o'.clock) (sym same)
            (hs (subst (λ n. several (requests n) ≡ true) same m) (rw e at k))
      | inr e ↦ hs' b' (ne_of_== b' b e) m (rw e at k)
    ];
    older = ho;
    in_order = hq;
    locks_in_order =
        update-each (λ k. LocksInOrder (requests k)) s.calls b x hx
          (λ b' ne. ord.locks_in_order b');
    releases_all = ord.releases_all;
  }

  pub kept_after :
      (c h : ℕ)
      → (several (requests b) ≡ true
          → keeps_lock (requests b) c x ≡ keeps_lock (requests b) c (s.calls b))
      → (several (requests h) ≡ true) × (keeps_lock (requests h) c (s.calls h) ≡ true)
      → (several (requests h) ≡ true) × (keeps_lock (requests h) c (update s.calls b x h) ≡ true)
  kept_after c h hk kept = elim (Bool-cases (h == b)) [
    | inl e ↦
        let same : h ≡ b = eq_of_== h b e in
        let m = subst (λ n. several (requests n) ≡ true) same kept.0 in
        let k = subst (λ n. keeps_lock (requests n) c (s.calls n) ≡ true) same kept.1 in
        rw e (kept.0, subst (λ n. keeps_lock (requests n) c x ≡ true) (sym same) (hk m ∙ k))
    | inr e ↦ rw e kept
  ]

  pub committed_before :
      (b' : ℕ)
      → (several (requests b) ≡ true → committed x ≡ true → committed (s.calls b) ≡ true)
      → several (requests b') ≡ true
      → committed (update s.calls b x b') ≡ true
      → committed (s.calls b') ≡ true
  committed_before b' hm m k = elim (Bool-cases (b' == b)) [
    | inl e ↦
        let same : b' ≡ b = eq_of_== b' b e in
        subst (λ n. committed (s.calls n) ≡ true) (sym same)
          (hm (subst (λ n. several (requests n) ≡ true) same m) (rw e at k))
    | inr e ↦ rw e at k
  ]

  -- A call keeps its locks and its stamp.
  pub keeps_locks-Ordered :
      (n : ℕ → ℕ)
      → ((c : ℕ) → member c (requests b) ≡ true → g.stage b c ≡ away → pending c x ≡ true)
      → ((c : ℕ) → g.owner c ≡ sender b → claims c x ≡ true)
      → ((b' c : ℕ) → g.stage b' c ≡ acquired → n b' ≡ 0 → s.exec_count_down b' ≡ 0)
      → (several (requests b) ≡ true → committed x ≡ true → committed (s.calls b) ≡ true)
      → ((c : ℕ)
          → several (requests b) ≡ true
          → keeps_lock (requests b) c x ≡ keeps_lock (requests b) c (s.calls b))
      → LocksInOrder (requests b) x
      → Ordered requests (call b x (record s { exec_count_down = n })) g o
  keeps_locks-Ordered n hp hc hn hm hk hx =
      goes_on-Ordered n s.enqueue_lock o hp hc hn
        (λ c m k. ord.keeper_holds b c m (sym (hk c m) ∙ k))
        (λ b' c ne m k. ord.keeper_holds b' c m k)
        (λ c l. kept_after c (o.holder c) (hk c) (ord.lock_kept c l))
        (λ m k. ord.stamped b m (hm m k)) (λ b' ne m k. ord.stamped b' m k)
        (λ b0 b' c m m' k mem lt. ord.older b0 b' c m m' (committed_before b' hm m' k) mem lt)
        ord.in_order hx

  -- A call takes a lock, or gives it back.
  pub changes_lock-Ordered :
      (c0 : ℕ) (l : Bool)
      → several (requests b) ≡ true
      → ((c : ℕ) → member c (requests b) ≡ true → g.stage b c ≡ away → pending c x ≡ true)
      → ((c : ℕ) → g.owner c ≡ sender b → claims c x ≡ true)
      → (committed x ≡ true → committed (s.calls b) ≡ true)
      → ((c : ℕ) → c ≢ c0 → keeps_lock (requests b) c x ≡ keeps_lock (requests b) c (s.calls b))
      → keeps_lock (requests b) c0 x ≡ l
      → ((b' : ℕ)
          → b' ≢ b
          → several (requests b') ≡ true
          → keeps_lock (requests b') c0 (s.calls b') ≡ false)
      → LocksInOrder (requests b) x
      → Ordered requests
          (call b x (record s { enqueue_lock = update s.enqueue_lock c0 l }))
          g
          (record o { holder = update o.holder c0 b })
  changes_lock-Ordered c0 l many hp hc hm hk h0 hother hx =
      goes_on-Ordered s.exec_count_down (update s.enqueue_lock c0 l)
        (record o { holder = update o.holder c0 b }) hp hc (λ b' c a z. z)
        (λ c m k. elim (Bool-cases (c == c0)) [
          | inl e ↦
              rw e
                (sym h0 ∙ subst (λ n. keeps_lock (requests b) n x ≡ true) (eq_of_== c c0 e) k, refl)
          | inr e ↦ rw e (ord.keeper_holds b c m (sym (hk c (ne_of_== c c0 e)) ∙ k))
        ])
        (λ b' c ne m k. elim (Bool-cases (c == c0)) [
          | inl e ↦
              let held =
                subst (λ n. keeps_lock (requests b') n (s.calls b') ≡ true) (eq_of_== c c0 e) k in
              let free = hother b' ne m in cc
          | inr e ↦ rw e (ord.keeper_holds b' c m k)
        ])
        (λ c k. elim (Bool-cases (c == c0)) [
          | inl e ↦
              rw (e, ==_self b)
                (
                  many,
                  subst (λ n. keeps_lock (requests b) n x ≡ true) (sym (eq_of_== c c0 e))
                      (h0 ∙ (rw e at k)),
                )
          | inr e ↦ rw e (
              kept_after c (o.holder c) (λ _. hk c (ne_of_== c c0 e)) (ord.lock_kept c (rw e at k)))
        ])
        (λ m k. ord.stamped b m (hm k)) (λ b' ne m k. ord.stamped b' m k)
        (λ b0 b' c m m' k mem lt.
          ord.older b0 b' c m m' (committed_before b' (λ _. hm) m' k) mem lt)
        ord.in_order hx
