-- ===== src/Rt/Object/Counts.antt =====
-- The invariant of a cown's strong count, and what follows for its references.
use verona.Prelude.{
  ℕ, zero, suc, ◌+◌, ◌*◌, ◌<◌, ◌≤◌, ◌≡◌, ◌⊎◌, inl, inr, refl, ap, sym, ◌∙◌, true, false, some, ◌==◌,
  ltb, arith, Bool-cases, subst, ==_ne,
}
use verona.Rt.Object.Header.{cown, incref, done_rc, finished_rc, cown_zero_rc}
use verona.Rt.Object.Cown.{
  decref_cown, decref_cown_zero, acquire_strong_from_weak, acquire_failed, Cown, new_cown,
  decref_returns, acquire_returns, Fits, Step, increments, decrements, decides, acquires, fails,
  Run, no_step, one_more,
}

mul_suc : (a k : ℕ) → a * suc k ≡ a * k + a
mul_suc a k = omega arith

module _ (alignment : ℕ) (aligned : 8 ≤ alignment) where
  -- No call has returned true: the word counts the strong references, and if there is none, a call
  -- is about to find that out.
  pub record Alive (c : Cown) : Type 0 where
    pub counted : c.rc ≡ cown + alignment * c.strong
    pub kept : 0 < c.strong ⊎ 0 < c.deciding
    pub no_failing : c.failing ≡ 0
    pub none_finished : c.finished ≡ 0
    pub strong_fits : Fits alignment c.strong

  -- One call has returned true: no strong reference is left, and the top bit stays set.
  pub record Over (c : Cown) : Type 0 where
    pub excess : ℕ
    pub marked : c.rc ≡ finished_rc + alignment * excess
    pub excess_low : excess ≤ c.failing
    pub no_strong : c.strong ≡ 0
    pub one_finished : c.finished ≡ 1
    pub failing_fits : Fits alignment c.failing

  abbrev Inv : Cown → Type 0
  Inv c = Alive c ⊎ Over c

  mul_le : (j k : ℕ) → j ≤ k → alignment * j ≤ alignment * k
  mul_le j k h = grind arith

  more_pos : (k : ℕ) → (cown + alignment * suc k == done_rc alignment) ≡ false → 0 < k
  more_pos zero h = absurd (ground arith)
  more_pos (suc k) h = omega arith

  nonzero_pos : (k : ℕ) → (cown + alignment * k == cown) ≡ false → 0 < k
  nonzero_pos zero h = absurd (ground arith)
  nonzero_pos (suc k) h = omega arith

  zero_of : (k : ℕ) → alignment * k ≡ 0 → k ≡ 0
  zero_of zero h = refl
  zero_of (suc k) h = absurd (omega (arith, mul_suc alignment k))

  increments-Inv :
      (c : Cown)
      → 0 < c.strong
      → Fits alignment (suc c.strong)
      → Inv c
      → Inv (record c { rc = (incref alignment c.rc).1; strong = suc c.strong })
  unfolding incref
  increments-Inv c pos fits (inr o) = absurd (omega arith)
  increments-Inv c pos fits (inl a) = inl (record {
    counted = omega arith;
    kept = inl (omega arith);
    no_failing = a.no_failing;
    none_finished = a.none_finished;
    strong_fits = fits;
  })

  decrements-Inv :
      (c : Cown) (k : ℕ)
      → c.strong ≡ suc k
      → Inv c
      → Inv (
          decref_returns
            (decref_cown alignment c.rc).1
            (record c { rc = (decref_cown alignment c.rc).0; strong = k }))
  unfolding decref_cown decref_returns
  decrements-Inv c k e (inr o) = absurd (omega arith)
  decrements-Inv c k e (inl a) =
      let all = a.counted ∙ ap (λ s. cown + alignment * s) e in
      let fits = subst (Fits alignment) e a.strong_fits in
      elim (Bool-cases (c.rc == done_rc alignment)) [
        | inl last ↦ rw last (
            inl (record {
              counted = omega arith;
              kept = inr (omega arith);
              no_failing = a.no_failing;
              none_finished = a.none_finished;
              strong_fits = omega arith;
            }))
        | inr more ↦ rw more (
            inl (record {
              counted = omega arith;
              kept = inl (more_pos k (subst (λ rc. (rc == done_rc alignment) ≡ false) all more));
              no_failing = a.no_failing;
              none_finished = a.none_finished;
              strong_fits = omega arith;
            }))
      ]

  decides-Inv :
      (c : Cown) (k : ℕ)
      → c.deciding ≡ suc k
      → Inv c
      → Inv (
          decref_returns
            (some (decref_cown_zero c.rc).1)
            (record c { rc = (decref_cown_zero c.rc).0; deciding = k }))
  unfolding decref_cown_zero decref_returns
  decides-Inv c k e (inr o) = rw (==_ne c.rc cown (λ z. absurd (omega arith))) (
      inr (record {
        excess = o.excess;
        marked = o.marked;
        excess_low = o.excess_low;
        no_strong = o.no_strong;
        one_finished = o.one_finished;
        failing_fits = o.failing_fits;
      }))
  decides-Inv c k e (inl a) = elim (Bool-cases (c.rc == cown)) [
    | inl zero_rc ↦ rw zero_rc (
        inr (record {
          excess = 0;
          marked = omega arith;
          excess_low = omega arith;
          no_strong = zero_of c.strong (ground arith);
          one_finished = omega arith;
          failing_fits = subst (Fits alignment) (sym a.no_failing) (omega arith);
        }))
    | inr more ↦ rw more (
        inl (record {
          counted = a.counted;
          kept = inl (nonzero_pos c.strong (subst (λ rc. (rc == cown) ≡ false) a.counted more));
          no_failing = a.no_failing;
          none_finished = a.none_finished;
          strong_fits = a.strong_fits;
        }))
  ]

  acquires-Inv :
      (c : Cown)
      → Fits alignment (suc c.strong)
      → Fits alignment (suc c.failing)
      → Inv c
      → Inv (
          acquire_returns
            (acquire_strong_from_weak alignment c.rc).1
            (record c { rc = (acquire_strong_from_weak alignment c.rc).0 }))
  unfolding acquire_strong_from_weak acquire_returns
  acquires-Inv c fits fits' (inl a) =
      let below : ltb c.rc finished_rc ≡ true = ground arith in
      rw below (
        inl (record {
          counted = omega arith;
          kept = inl (omega arith);
          no_failing = a.no_failing;
          none_finished = a.none_finished;
          strong_fits = fits;
        }))
  acquires-Inv c fits fits' (inr o) =
      let below : ltb c.rc finished_rc ≡ false = ground arith in
      let small = mul_le o.excess c.failing o.excess_low in
      rw below (
        inr (record {
          excess = suc o.excess;
          marked = omega arith;
          excess_low = omega arith;
          no_strong = o.no_strong;
          one_finished = o.one_finished;
          failing_fits = fits';
        }))

  fails-Inv :
      (c : Cown) (k : ℕ)
      → c.failing ≡ suc k
      → Inv c
      → Inv (
          acquire_returns
            (some (acquire_failed c.rc).1)
            (record c { rc = (acquire_failed c.rc).0; failing = k }))
  unfolding acquire_failed acquire_returns
  fails-Inv c k e (inl a) = absurd (omega arith)
  fails-Inv c k e (inr o) = inr (record {
    excess = 0;
    marked = omega arith;
    excess_low = omega arith;
    no_strong = o.no_strong;
    one_finished = o.one_finished;
    failing_fits = omega (arith, ap (λ f. alignment * f) e);
  })

  Step-Inv : {c d : Cown} → Step alignment c d → Inv c → Inv d
  Step-Inv (increments c pos fits) = increments-Inv c pos fits
  Step-Inv (decrements c k e) = decrements-Inv c k e
  Step-Inv (decides c k e) = decides-Inv c k e
  Step-Inv (acquires c fits fits') = acquires-Inv c fits fits'
  Step-Inv (fails c k e) = fails-Inv c k e

  Run-Inv : {c d : Cown} → Run alignment c d → Inv c → Inv d
  Run-Inv (no_step c) i = i
  Run-Inv (one_more r s) i = Step-Inv s (Run-Inv r i)

  new-Alive : Fits alignment 1 → Alive (new_cown alignment)
  unfolding new_cown
  new-Alive fits = record {
    counted = omega arith;
    kept = inl (omega arith);
    no_failing = refl;
    none_finished = refl;
    strong_fits = fits;
  }

  module _ (fits : Fits alignment 1) {c : Cown} (r : Run alignment (new_cown alignment) c) where
    -- For an alignment of at least 8: whatever steps threads take with a new cown, so long as their
    -- references and calls do not count up to the top bit of the word, either no call of `decref_cown`
    -- has returned true, and a strong reference is held or a call is about to find the count zero;
    -- or one call has returned true, and no strong reference is held.
    pub run-one_finishes :
        (c.finished ≡ 0 × (0 < c.strong ⊎ 0 < c.deciding)) ⊎ (c.finished ≡ 1 × c.strong ≡ 0)
    run-one_finishes = elim (Run-Inv r (inl (new-Alive fits))) [
      | inl a ↦ inl (a.none_finished, a.kept)
      | inr o ↦ inr (o.one_finished, o.no_strong)
    ]

    -- For an alignment of at least 8: when no call stands at a `yield`, `cown_zero_rc` tells whether no
    -- strong reference is held.
    pub quiet-cown_zero_rc : c.deciding ≡ 0 → c.failing ≡ 0 → cown_zero_rc c.rc ≡ (c.strong == 0)
    unfolding cown_zero_rc
    quiet-cown_zero_rc none_deciding none_failing = elim (Run-Inv r (inl (new-Alive fits))) [
      | inl a ↦ ground arith
      | inr o ↦
          let none_left : o.excess ≡ 0 = omega arith in
          let no_excess = ap (λ m. alignment * m) none_left in ground arith
    ]
