-- ===== src/Rt/Behaviours/Order/Locks.antt =====
-- The steps of a call that take and give back locks keep the order.
use verona.Prelude.{
  ℕ, ◌<◌, ◌≡◌, sym, refl, ◌∙◌, List, [], ◌∷◌, Bool, true, false, ◌==◌, length, update, arith, inl,
  inr, Bool-cases, eq_of_==, ==_self, ==_ne, subst,
}
use verona.Rt.Behaviours.Defs.{
  Request, Call, unsent, locking, sending, sent, returned, System, call, set_lock, after_sent,
}
use verona.Rt.Behaviours.Holding.{sender, away, Ghost, member, Above, IsSorted, Inv}
use verona.Rt.Behaviours.Missing.{member-Above}
use verona.Rt.Behaviours.Order.Defs.{
  Times, several, keeps_lock, pending, claims, LocksInOrder, Ordered,
}
use verona.Rt.Behaviours.Order.Calls.{keeps_locks-Ordered, changes_lock-Ordered}

-- The first cown of sorted requests is not there again.
member_first : (r : Request) (more : List Request) → Above r.cown more → member r.cown more ≡ false
member_first r more a = elim (Bool-cases (member r.cown more)) [
  | inr m ↦ m
  | inl m ↦ let lt : r.cown < r.cown = member-Above r.cown r.cown more a m in absurd (omega arith)
]

none_left : (all : List Request) (c : ℕ) → keeps_lock all c (locking all) ≡ false
none_left all c = elim (Bool-cases (member c all)) [ inl m ↦ rw m refl | inr m ↦ rw m refl ]

-- Behind an enqueue, the call has the other requests before it.
module _ (r : Request) (more : List Request) where
  after_pending :
      (n : Bool) (c : ℕ) → pending c (after_sent (r ∷ more) n) ≡ pending c (sent (r ∷ more) n)
  unfolding after_sent
  after_pending true c = refl
  after_pending false c = refl

  after_keeps :
      (all : List Request) (n : Bool) (c : ℕ)
      → keeps_lock all c (after_sent (r ∷ more) n) ≡ member c more
  unfolding after_sent
  after_keeps all true c = refl
  after_keeps all false c = refl

  after_locks : (all : List Request) (n : Bool) → LocksInOrder all (after_sent (r ∷ more) n)
  unfolding after_sent
  after_locks all true = tt
  after_locks all false = tt

module _ {requests : ℕ → List Request} {s : System} {g : Ghost} {o : Times} (inv : Inv requests s g)
    (ord : Ordered requests s g o) (b : ℕ) where
  abbrev make : System
  make = record s { exec_count_down = update s.exec_count_down b (length (requests b)) }

  no_claim :
      (x : Call)
      → s.calls b ≡ x
      → ((c : ℕ) → claims c x ≡ false)
      → (c : ℕ) → g.owner c ≡ sender b
      → ⊥
  no_claim x e none c h =
      let claim : claims c x ≡ true = subst (λ y. claims c y ≡ true) e (ord.sender_claims b c h) in
      let no_claim_now = none c in false_is_true (sym no_claim_now ∙ claim)
    where
      false_is_true : (false ≡ true) → ⊥
      false_is_true h = cc

  module _ (e : s.calls b ≡ unsent) (all_away : (c : ℕ) → g.stage b c ≡ away) where
    pub starts_locking-Ordered :
        several (requests b) ≡ true
        → IsSorted (requests b)
        → Ordered requests (call b (locking (requests b)) make) g o
    starts_locking-Ordered many sorted =
        keeps_locks-Ordered ord b (locking (requests b)) make.exec_count_down (λ c m a. refl)
          (λ c h. absurd (no_claim unsent e (λ c. refl) c h))
          (λ b' c a z. ground (arith, a, z, all_away c)) (λ m k. cc)
          (λ c m. none_left (requests b) c ∙ rw e refl)
          (many, λ c m n. let stuck : true ≡ false = sym m ∙ n in cc, λ c m. m, sorted)

    pub starts_sending-Ordered :
        several (requests b) ≡ false → Ordered requests (call b (sending (requests b)) make) g o
    starts_sending-Ordered one =
        keeps_locks-Ordered ord b (sending (requests b)) make.exec_count_down (λ c m a. m)
          (λ c h. absurd (no_claim unsent e (λ c. refl) c h))
          (λ b' c a z. ground (arith, a, z, all_away c))
          (λ m k. let stuck : false ≡ true = sym one ∙ m in cc)
          (λ c m. let stuck : false ≡ true = sym one ∙ m in cc) tt

  pub finishes-Ordered : s.calls b ≡ sending [] → Ordered requests (call b returned s) g o
  finishes-Ordered e =
      keeps_locks-Ordered ord b returned s.exec_count_down
        (λ c m a. subst (λ x. pending c x ≡ true) e (ord.unsent_pending b c m a))
        (λ c h. absurd (no_claim (sending []) e (λ c. refl) c h)) (λ b' c a z. z) (λ m k. rw e refl)
        (λ c m. rw e refl) tt

  pub takes_lock-Ordered :
      (r : Request) (more : List Request)
      → s.calls b ≡ locking (r ∷ more)
      → s.enqueue_lock r.cown ≡ false
      → Ordered requests
          (call b (locking more) (set_lock r.cown true s))
          g
          (record o { holder = update o.holder r.cown b })
  unfolding set_lock
  takes_lock-Ordered r more e free =
      let known : LocksInOrder (requests b) (locking (r ∷ more)) =
        subst (LocksInOrder (requests b)) e (ord.locks_in_order b) in
      let gone : member r.cown more ≡ false = member_first r more known.3.0 in
      changes_lock-Ordered ord b (locking more) r.cown true known.0 (λ c m a. refl)
        (λ c h. absurd (no_claim (locking (r ∷ more)) e (λ c. refl) c h)) (λ k. cc)
        (λ c ne. rw (e, ==_ne c r.cown ne) refl)
        (rw gone (known.2 r.cown (rw (==_self r.cown) refl)))
        (λ b' ne m'. elim (Bool-cases (keeps_lock (requests b') r.cown (s.calls b'))) [
          | inr k ↦ k
          | inl k ↦ let stuck : false ≡ true = sym free ∙ (ord.keeper_holds b' r.cown m' k).0 in cc
        ])
        (
          known.0,
          λ c m n. elim (Bool-cases (c == r.cown)) [
            | inl d ↦ subst (λ k. Above k more) (sym (eq_of_== c r.cown d)) known.3.0
            | inr d ↦ (known.1 c m (rw d n)).1
          ],
          λ c m. known.2 c (member_later c m),
          known.3.1,
        )
    where
      member_later : (c : ℕ) → member c more ≡ true → member c (r ∷ more) ≡ true
      member_later c m = elim (Bool-cases (c == r.cown)) [ inl d ↦ rw d refl | inr d ↦ rw d m ]

  module _ (r : Request) (more : List Request) (n : Bool) (e : s.calls b ≡ sent (r ∷ more) n)
      (above : Above r.cown more) where
    after_claims : (c : ℕ) → g.owner c ≡ sender b → claims c (after_sent (r ∷ more) n) ≡ true
    unfolding after_sent
    after_claims c h = by_need n (subst (λ x. claims c x ≡ true) e (ord.sender_claims b c h))
      where
        by_need :
            (n : Bool)
            → claims c (sent (r ∷ more) n) ≡ true
            → claims c (after_sent (r ∷ more) n) ≡ true
        by_need true k = k
        by_need false k = cc

    still_wants :
        (c : ℕ)
        → member c (requests b) ≡ true
        → g.stage b c ≡ away
        → pending c (after_sent (r ∷ more) n) ≡ true
    still_wants c m a =
        after_pending r more n c ∙ subst (λ x. pending c x ≡ true) e (ord.unsent_pending b c m a)

    pub gives_lock-Ordered :
        several (requests b) ≡ true
        → Ordered requests
            (call b (after_sent (r ∷ more) n) (set_lock r.cown false s))
            g
            (record o { holder = update o.holder r.cown b })
    unfolding set_lock
    gives_lock-Ordered many =
        changes_lock-Ordered ord b (after_sent (r ∷ more) n) r.cown false many still_wants
          after_claims (λ k. rw e refl)
          (λ c ne. after_keeps r more (requests b) n c ∙ rw (e, ==_ne c r.cown ne) refl)
          (after_keeps r more (requests b) n r.cown ∙ member_first r more above)
          (λ b' ne m'. elim (Bool-cases (keeps_lock (requests b') r.cown (s.calls b'))) [
            | inr k ↦ k
            | inl k ↦
                let mine : o.holder r.cown ≡ b =
                  (ord.keeper_holds b r.cown many (rw (e, ==_self r.cown) refl)).1 in
                absurd (ne (sym (ord.keeper_holds b' r.cown m' k).1 ∙ mine))
          ])
          (after_locks r more (requests b) n)

    pub goes_past-Ordered :
        several (requests b) ≡ false → Ordered requests (call b (after_sent (r ∷ more) n) s) g o
    goes_past-Ordered one =
        keeps_locks-Ordered ord b (after_sent (r ∷ more) n) s.exec_count_down still_wants
          after_claims (λ b' c a z. z) (λ m k. let stuck : false ≡ true = sym one ∙ m in cc)
          (λ c m. let stuck : false ≡ true = sym one ∙ m in cc) (after_locks r more (requests b) n)
