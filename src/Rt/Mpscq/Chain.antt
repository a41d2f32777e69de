-- ===== src/Rt/Mpscq/Chain.antt =====
-- The messages of a queue of src/rt/ds/mpscq.h as a list, the oldest first, while enqueuers are between
-- the two parts of `enqueue`.
use verona.Prelude.{
  ℕ, zero, suc, ◌≡◌, ◌≢◌, refl, sym, ap, subst, ◌∙◌, ◌⊎◌, inl, inr, some, some-injective, List, [],
  ◌∷◌, ◌++◌, arith, get_elem?, All, ◌==◌, ==_ne, ==_self, eq_of_==, if◌then◌else◌, Bool-cases,
}
use verona.Rt.Mpscq.Defs.{Pointer, nullptr}
use verona.Rt.Mpscq.Steps.{Enqueuer, removed}

-- The messages that wait to be linked behind the message `a`.
abbrev pub waiting : List Enqueuer → ℕ → List ℕ
waiting [] a = []
waiting (e ∷ es) a = let rest = waiting es a in if e.prev.address == a then e.t ∷ rest else rest

abbrev pub IsFresh : ℕ → List ℕ → Type 0
IsFresh a xs = All (λ x. a ≢ x) xs

abbrev pub Distinct : List ℕ → Type 0
Distinct [] = Unit
Distinct (x ∷ xs) = IsFresh x xs × Distinct xs

-- `b` is behind `a`: it is linked, or one enqueuer is about to link it.
abbrev pub Edge : (ℕ → Pointer) → (ℕ → List ℕ) → ℕ → ℕ → Type 0
Edge next wait a b =
    (((next a).address ≡ b) × (wait a ≡ [])) ⊎ ((next a ≡ nullptr) × (wait a ≡ b ∷ []))

abbrev pub Links : (ℕ → Pointer) → (ℕ → List ℕ) → ℕ → ℕ → List ℕ → Type 0
Links next wait last a [] = (last ≡ a) × (wait a ≡ []) × (next a ≡ nullptr)
Links next wait last a (b ∷ rest) = Edge next wait a b × Links next wait last b rest

-- The newest message is one of the list.
pub last-≢ :
    (next : ℕ → Pointer) (wait : ℕ → List ℕ) (last a : ℕ) (rest : List ℕ) (x : ℕ)
    → Links next wait last a rest
    → IsFresh x (a ∷ rest)
    → x ≢ last
last-≢ next wait last a [] x (e, w, n) (ne, f) = λ h. ne (h ∙ e)
last-≢ next wait last a (b ∷ rest) x (edge, h) (ne, f) = last-≢ next wait last b rest x h f

module _ (next next2 : ℕ → Pointer) (wait wait2 : ℕ → List ℕ) where
  abbrev Agree : ℕ → Type 0
  Agree x = (next2 x ≡ next x) × (wait2 x ≡ wait x)

  Edge-Agree : (a b : ℕ) → Agree a → Edge next wait a b → Edge next2 wait2 a b
  Edge-Agree a b (n, w) (inl (linked, none_waits)) =
      inl (ap (λ p. p.address) n ∙ linked, w ∙ none_waits)
  Edge-Agree a b (n, w) (inr (null, waits)) = inr (n ∙ null, w ∙ waits)

  -- A new message `t` behind the last one.
  pub Links-append :
      (last a t : ℕ) (rest : List ℕ)
      → Links next wait last a rest
      → Distinct (a ∷ rest)
      → IsFresh t (a ∷ rest)
      → ((x : ℕ) → x ≢ t → next2 x ≡ next x)
      → ((x : ℕ) → x ≢ last → wait2 x ≡ wait x)
      → (wait2 last ≡ t ∷ wait last)
      → (next2 t ≡ nullptr)
      → (wait t ≡ [])
      → Links next2 wait2 t a (rest ++ t ∷ [])
  Links-append last a t [] (e, w, n) d (ne, f) keep_next keep_wait new new_null alone = (
    inr (
      keep_next a (λ h. ne (sym h)) ∙ n,
      subst (λ x. wait2 x ≡ t ∷ []) e (new ∙ ap (λ r. t ∷ r) (ap wait e ∙ w)),
    ),
    (refl, keep_wait t (λ h. ne (h ∙ e)) ∙ alone, new_null),
  )
  Links-append last a t (b ∷ rest) (edge, h) (fa, d) (ne, f) keep_next keep_wait new new_null
        alone =
      (
        Edge-Agree a b
            (keep_next a (λ h. ne (sym h)), keep_wait a (last-≢ next wait last b rest a h fa)) edge,
        Links-append last b t rest h d f keep_next keep_wait new new_null alone,
      )

  -- The enqueuer with `t` behind `p` links it.
  module _ (p t : ℕ) (away : (x : ℕ) → x ≢ p → Agree x) (linked : (next2 p).address ≡ t)
      (waits : wait p ≢ []) (only : (b : ℕ) → wait p ≡ b ∷ [] → (t ≡ b) × (wait2 p ≡ [])) where
    Edge-at : (b : ℕ) → Edge next wait p b → Edge next2 wait2 p b
    Edge-at b (inl (there, none_waits)) = absurd (waits none_waits)
    Edge-at b (inr (null, waiting_one)) =
        let (same, gone) = only b waiting_one in inl (linked ∙ same, gone)

    Edge-link : (a b : ℕ) → Edge next wait a b → Edge next2 wait2 a b
    Edge-link a b edge = elim (Bool-cases (a == p)) [
      | inl here ↦
          let e = eq_of_== a p here in
          subst (λ x. Edge next2 wait2 x b) (sym e)
            (Edge-at b (subst (λ x. Edge next wait x b) e edge))
      | inr other ↦ Edge-Agree a b (away a (λ e. ground arith)) edge
    ]

    pub Links-link :
        (last a : ℕ) (rest : List ℕ) → Links next wait last a rest → Links next2 wait2 last a rest
    Links-link last a [] (e, w, n) =
        let (n2, w2) = away a (λ h. waits (ap wait (sym h) ∙ w)) in (e, w2 ∙ w, n2 ∙ n)
    Links-link last a (b ∷ rest) (edge, h) = (Edge-link a b edge, Links-link last b rest h)

-- Lemmas on the waiting messages.
pub waiting-here :
    (e : Enqueuer) (es : List Enqueuer) {a : ℕ}
    → e.prev.address ≡ a
    → waiting (e ∷ es) a ≡ e.t ∷ waiting es a
waiting-here e es {a} h = rw (ap (λ x. x == a) h ∙ ==_self a) refl

pub waiting-away :
    (e : Enqueuer) (es : List Enqueuer) {a : ℕ}
    → e.prev.address ≢ a
    → waiting (e ∷ es) a ≡ waiting es a
waiting-away e es {a} h = rw (==_ne e.prev.address a h) refl

pub waiting-removed :
    (es : List Enqueuer) (i a : ℕ) {e : Enqueuer}
    → get_elem? es i ≡ some e
    → e.prev.address ≢ a
    → waiting (removed es i) a ≡ waiting es a
waiting-removed [] i a h ne = refl
waiting-removed (e ∷ es) zero a h ne =
    sym (waiting-away e es (λ k. ne (ap (λ x. x.prev.address) (sym (some-injective _ _ h)) ∙ k)))
waiting-removed (e ∷ es) (suc i) a h ne =
    ap (λ r. if e.prev.address == a then e.t ∷ r else r) (waiting-removed es i a h ne)

cons_nil : (x : ℕ) (xs ys : List ℕ) → ys ≡ x ∷ xs → ys ≡ [] → ⊥
cons_nil x xs ys h e = cc

tail-eq : (x b : ℕ) (xs ys : List ℕ) → ys ≡ x ∷ xs → ys ≡ b ∷ [] → (x ≡ b) × (xs ≡ [])
tail-eq x b xs ys h e = (cc, cc)

-- The message of an enqueuer waits.
pub waiting-≢ :
    (es : List Enqueuer) (i a : ℕ) {e : Enqueuer}
    → get_elem? es i ≡ some e
    → e.prev.address ≡ a
    → waiting es a ≢ []
waiting-≢ [] i a h at = ground arith
waiting-≢ (d ∷ es) zero a h at =
    cons_nil d.t (waiting es a) _
      (waiting-here d es (ap (λ x. x.prev.address) (some-injective _ _ h) ∙ at))
waiting-≢ (d ∷ es) (suc i) a h at = elim (Bool-cases (d.prev.address == a)) [
  | inl here ↦ cons_nil d.t (waiting es a) _ (waiting-here d es (eq_of_== _ _ here))
  | inr away ↦ λ e. waiting-≢ es i a h at (sym (waiting-away d es (λ k. ground arith)) ∙ e)
]

pub waiting-only :
    (es : List Enqueuer) (i a b : ℕ) {e : Enqueuer}
    → get_elem? es i ≡ some e
    → e.prev.address ≡ a
    → waiting es a ≡ b ∷ []
    → (e.t ≡ b) × (waiting (removed es i) a ≡ [])
waiting-only [] i a b h at one = ground arith
waiting-only (d ∷ es) zero a b h at one =
    let same = some-injective _ _ h in
    let (first, rest) =
      tail-eq d.t b (waiting es a) _ (waiting-here d es (ap (λ x. x.prev.address) same ∙ at)) one in
    (ap (λ x. x.t) (sym same) ∙ first, rest)
waiting-only (d ∷ es) (suc i) a b h at one = elim (Bool-cases (d.prev.address == a)) [
  | inl here ↦
      let (_, rest) = tail-eq d.t b (waiting es a) _ (waiting-here d es (eq_of_== _ _ here)) one in
      absurd (waiting-≢ es i a h at rest)
  | inr away ↦
      let (same, gone) =
        waiting-only es i a b h at (sym (waiting-away d es (λ k. ground arith)) ∙ one) in
      (same, waiting-away d (removed es i) (λ k. ground arith) ∙ gone)
]
