-- ===== src/Rt/Mpscq/ChainSteps.antt =====
-- The functions of src/rt/ds/mpscq.h on the messages of the queue as a list.
use verona.Prelude.{
  ℕ, ◌≡◌, ◌≢◌, refl, sym, ap, subst, ◌∙◌, ◌⊎◌, inl, inr, Bool, true, false, none, some, List, [],
  ◌∷◌, ◌++◌, arith, get_elem?, All-append, ◌==◌, ==_ne, ==_self, eq_of_==, if◌then◌else◌,
  Bool-cases,
}
use verona.Rt.Mpscq.Defs.{
  notify, Pointer, nullptr, has_state, clear_state, set_state, Mpscq, same_pointer,
  enqueue_exchange, enqueue_link, dequeue, init,
}
use verona.Rt.Mpscq.Steps.{Enqueuer, System, removed}
use verona.Rt.Mpscq.Chain.{
  waiting, IsFresh, Distinct, Links, last-≢, Links-append, Links-link, waiting-here, waiting-away,
  waiting-removed, waiting-≢, waiting-only,
}

-- `rest` are the messages behind `front`.
pub record ChainOf (next : ℕ → Pointer) (wait : ℕ → List ℕ) (last front : ℕ) (rest : List ℕ)
    : Type 0 where
  pub links : Links next wait last front rest
  pub distinct : Distinct (front ∷ rest)
  pub apart : (a : ℕ) → IsFresh a (front ∷ rest) → wait a ≡ []

abbrev pub IsChain : System → List ℕ → Type 0
IsChain s rest = ChainOf s.queue.next (waiting s.enqueuers) s.queue.back.address s.queue.front rest

-- `init`.
pub init-IsChain :
    (stub : ℕ) (next : ℕ → Pointer) → IsChain (record { queue = init stub next; enqueuers = [] }) []
unfolding init
init-IsChain stub next = record {
  links = (refl, refl, rw (==_self stub) refl);
  distinct = (tt, tt);
  apart = λ a f. refl;
}

Distinct-append : (xs : List ℕ) (t : ℕ) → Distinct xs → IsFresh t xs → Distinct (xs ++ t ∷ [])
Distinct-append [] t d f = (tt, tt)
Distinct-append (x ∷ xs) t (fx, d) (ne, f) =
    (All-append _ xs (t ∷ []) fx ((λ e. ne (sym e)), tt), Distinct-append xs t d f)

IsFresh-front : (xs ys : List ℕ) (a : ℕ) → IsFresh a (xs ++ ys) → IsFresh a xs
IsFresh-front [] ys a f = tt
IsFresh-front (x ∷ xs) ys a (ne, f) = (ne, IsFresh-front xs ys a f)

IsFresh-last : (xs : List ℕ) (a t : ℕ) → IsFresh a (xs ++ t ∷ []) → a ≢ t
IsFresh-last [] a t (ne, f) = ne
IsFresh-last (x ∷ xs) a t (ne, f) = IsFresh-last xs a t f

-- The exchange puts a message, which must not be in the queue, behind the others.
pub exchange-IsChain :
    (t : ℕ) (s : System) (rest : List ℕ)
    → IsChain s rest
    → IsFresh t (s.queue.front ∷ rest)
    → IsChain
        (record {
          queue = (enqueue_exchange t s.queue).1;
          enqueuers = record { prev = s.queue.back; t = t } ∷ s.enqueuers;
        })
        (rest ++ t ∷ [])
unfolding enqueue_exchange
exchange-IsChain t s rest h f = record {
  links =
      Links-append s.queue.next _ (waiting s.enqueuers) _ s.queue.back.address s.queue.front t rest
        h.links h.distinct f (λ x ne. rw (==_ne x t ne) refl)
        (λ x ne. waiting-away (record { prev = s.queue.back; t = t }) s.enqueuers (λ e. ne (sym e)))
        (waiting-here (record { prev = s.queue.back; t = t }) s.enqueuers refl)
        (rw (==_self t) refl) (h.apart t f);
  distinct = Distinct-append (s.queue.front ∷ rest) t h.distinct f;
  apart = λ a fa.
      let old = IsFresh-front (s.queue.front ∷ rest) (t ∷ []) a fa in
      waiting-away (record { prev = s.queue.back; t = t }) s.enqueuers
        (λ e.
          last-≢ s.queue.next (waiting s.enqueuers) s.queue.back.address s.queue.front rest a
            h.links old (sym e))
      ∙ h.apart a old;
}

passed_on-address :
    (b : Bool) (t : ℕ) → (if b then set_state t notify else clear_state t).address ≡ t
passed_on-address true t = refl
passed_on-address false t = refl

removed-apart :
    (i a : ℕ) (es : List Enqueuer) (e : Enqueuer)
    → get_elem? es i ≡ some e
    → waiting es a ≡ []
    → waiting (removed es i) a ≡ []
removed-apart i a es e here none_waits = elim (Bool-cases (e.prev.address == a)) [
  | inl at ↦ absurd (waiting-≢ es i a here (eq_of_== _ _ at) none_waits)
  | inr away ↦ waiting-removed es i a here (λ k. ground arith) ∙ none_waits
]

pub link-IsChain :
    (i : ℕ) (s : System) (e : Enqueuer) (rest : List ℕ)
    → IsChain s rest
    → get_elem? s.enqueuers i ≡ some e
    → IsChain
        (record { queue = (enqueue_link e.t e.prev s.queue).1; enqueuers = removed s.enqueuers i })
        rest
unfolding enqueue_link
link-IsChain i s e rest h here = record {
  links =
      Links-link s.queue.next _ (waiting s.enqueuers) _ e.prev.address e.t
        (λ x ne. (
          rw (==_ne x e.prev.address ne) refl,
          waiting-removed s.enqueuers i x here (λ k. ne (sym k)),
        ))
        (rw (==_self e.prev.address) (passed_on-address (has_state e.prev notify) e.t))
        (waiting-≢ s.enqueuers i e.prev.address here refl)
        (λ b one. waiting-only s.enqueuers i e.prev.address b here refl one) s.queue.back.address
        s.queue.front rest h.links;
  distinct = h.distinct;
  apart = λ a fa. removed-apart i a s.enqueuers e here (h.apart a fa);
}

abbrev pub Dequeued : System → List ℕ → Type 0
Dequeued s rest =
    (dequeue s.queue ≡ (none, s.queue))
    ⊎ ((m : ℕ) × (n : Bool) × (later : List ℕ) × (rest ≡ m ∷ later)
        × (dequeue s.queue ≡ (
          some (m, n),
          record s.queue { front = m; deallocated = s.queue.front ∷ s.queue.deallocated },
        ))
        × IsChain
            (record s {
              queue = record s.queue {
                front = m;
                deallocated = s.queue.front ∷ s.queue.deallocated;
              };
            })
            later)

dequeue-null : (q : Mpscq) → same_pointer (q.next q.front) nullptr ≡ true → dequeue q ≡ (none, q)
unfolding dequeue
dequeue-null q h = rw (h, dequeue) refl

dequeue-some :
    (q : Mpscq) (m : ℕ)
    → same_pointer (q.next q.front) nullptr ≡ false
    → (q.next q.front).address ≡ m
    → dequeue q ≡ (
      some (m, has_state (q.next q.front) notify),
      record q { front = m; deallocated = q.front ∷ q.deallocated },
    )
unfolding dequeue
dequeue-some q m h e =
    subst
      (λ x. dequeue q ≡ (
        some (x, has_state (q.next q.front) notify),
        record q { front = x; deallocated = q.front ∷ q.deallocated },
      ))
      e (rw (h, dequeue) refl)

same_pointer-null : (p : Pointer) → p ≡ nullptr → same_pointer p nullptr ≡ true
same_pointer-null p h = ap (λ x. same_pointer x nullptr) h

advance :
    {next : ℕ → Pointer} {wait : ℕ → List ℕ} {last front b : ℕ} {later : List ℕ}
    → ChainOf next wait last front (b ∷ later)
    → wait front ≡ []
    → ChainOf next wait last b later
advance {wait} {front} h none_waits = record {
  links = h.links.1;
  distinct = h.distinct.1;
  apart = λ a fa. elim (Bool-cases (a == front)) [
    | inl at ↦ ap wait (eq_of_== _ _ at) ∙ none_waits
    | inr away ↦ h.apart a ((λ k. ground arith), fa)
  ];
}

-- `dequeue` finds nothing, or takes the first message.
pub dequeue-Dequeued : (s : System) (rest : List ℕ) → IsChain s rest → Dequeued s rest
dequeue-Dequeued s [] h = inl (dequeue-null s.queue (same_pointer-null _ h.links.2))
dequeue-Dequeued s (b ∷ later) h =
    elim (Bool-cases (same_pointer (s.queue.next s.queue.front) nullptr)) [
      | inl null ↦ inl (dequeue-null s.queue null)
      | inr some_next ↦ elim h.links.0 [
        | inr (null, _) ↦
            absurd (ground (arith, same_pointer-null (s.queue.next s.queue.front) null))
        | inl (linked, none_waits) ↦
            inr (b, _, later, refl, dequeue-some s.queue b some_next linked, advance h none_waits)
      ]
    ]
