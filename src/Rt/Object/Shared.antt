-- ===== src/Rt/Object/Shared.antt =====
-- The reference count of an immutable object (src/rt/object/object.h) as threads share it: `decref` is
-- cut in two between its load of the word and its `fetch_sub`, which it skips where the load shows the
-- last reference.
use verona.Prelude.{
  ℕ, zero, suc, ◌+◌, ◌*◌, ◌^◌, ◌<◌, ◌≤◌, ◌≡◌, ◌⊎◌, inl, inr, refl, ap, subst, ◌∙◌, Bool, true,
  false, Option, none, some, ◌==◌, if◌then◌else◌, arith, Bool-cases,
}
use verona.Rt.Object.Header.{rc_class, make_scc, fetch_sub, incref}

module _ (alignment : ℕ) where
  -- `done_rc` of an immutable object.
  abbrev pub done : ℕ
  done = rc_class + alignment

  -- Up to the load: the result, where the call returns here.
  unfoldable pub decref_load : ℕ → Option Bool
  decref_load rc = if rc == done then some true else none

  -- The rest: the new word, and the result.
  unfoldable pub decref_sub : ℕ → ℕ × Bool
  unfolding fetch_sub
  decref_sub rc = let (approx_rc, after) = fetch_sub alignment rc in (after, approx_rc == done)

-- The word of an object, the references that are held, the calls of `decref` that stand behind their
-- load, and how many calls have returned true.
pub record Shared : Type 0 where
  pub rc : ℕ
  pub held : ℕ
  pub loaded : ℕ
  pub freed : ℕ

unfoldable pub new_shared : ℕ → Shared
unfolding make_scc
new_shared alignment = record { rc = make_scc alignment; held = 1; loaded = 0; freed = 0 }

-- What a call's result does.
unfoldable pub returns : Option Bool → Shared → Shared
returns none s = record s { loaded = suc s.loaded }
returns (some true) s = record s { freed = suc s.freed }
returns (some false) s = s

module _ (alignment : ℕ) where
  -- There are never so many references that their count does not fit in the word.
  abbrev pub Countable : ℕ → Type 0
  Countable k = alignment * k + alignment + rc_class < 2 ^ 64

  -- A step of a thread that holds a reference, or of one that stands behind its load.
  pub data SharedStep : Shared → Shared → Type 0 where
    shares :
        (s : Shared)
        → 0 < s.held
        → Countable (suc (s.held + s.loaded))
        → SharedStep s (record s { rc = (incref alignment s.rc).1; held = suc s.held })
    loads :
        (s : Shared) (k : ℕ)
        → s.held ≡ suc k
        → SharedStep s (returns (decref_load alignment s.rc) (record s { held = k }))
    subtracts :
        (s : Shared) (k : ℕ)
        → s.loaded ≡ suc k
        → SharedStep s (
            returns
              (some (decref_sub alignment s.rc).1)
              (record s { rc = (decref_sub alignment s.rc).0; loaded = k }))

  pub data SharedRun : Shared → Shared → Type 0 where
    begins : (s : Shared) → SharedRun s s
    goes_on : {s t u : Shared} → SharedRun s t → SharedStep t u → SharedRun s u

module _ (alignment : ℕ) (aligned : 8 ≤ alignment) where
  pub record Live (s : Shared) : Type 0 where
    pub counted : s.rc ≡ rc_class + alignment * (s.held + s.loaded)
    pub kept : 0 < s.held + s.loaded
    pub none_freed : s.freed ≡ 0
    pub fits : Countable alignment (s.held + s.loaded)

  pub record Freed (s : Shared) : Type 0 where
    pub no_held : s.held ≡ 0
    pub no_loaded : s.loaded ≡ 0
    pub once : s.freed ≡ 1

  abbrev Inv : Shared → Type 0
  Inv s = Live s ⊎ Freed s

  one_left : (n : ℕ) → alignment * suc n ≡ alignment → n ≡ 0
  one_left zero h = refl
  one_left (suc n) h = absurd (omega arith)

  more_left : (n : ℕ) → (rc_class + alignment * suc n == done alignment) ≡ false → 0 < n
  more_left zero h = absurd (ground arith)
  more_left (suc n) h = omega arith

  shares-Inv :
      (s : Shared)
      → 0 < s.held
      → Countable alignment (suc (s.held + s.loaded))
      → Inv s
      → Inv (record s { rc = (incref alignment s.rc).1; held = suc s.held })
  unfolding incref
  shares-Inv s pos fits (inr f) = absurd (omega arith)
  shares-Inv s pos fits (inl l) = inl (record {
    counted = omega arith;
    kept = omega arith;
    none_freed = l.none_freed;
    fits = omega arith;
  })

  loads-Inv :
      (s : Shared) (k : ℕ)
      → s.held ≡ suc k
      → Inv s
      → Inv (returns (decref_load alignment s.rc) (record s { held = k }))
  unfolding decref_load returns
  loads-Inv s k e (inr f) = absurd (omega arith)
  loads-Inv s k e (inl l) =
      let sum : s.held + s.loaded ≡ suc (k + s.loaded) = omega arith in
      let all = l.counted ∙ ap (λ n. rc_class + alignment * n) sum in
      elim (Bool-cases (s.rc == done alignment)) [
        | inl last ↦
            let none_left = one_left (k + s.loaded) (ground arith) in
            rw last
              (inr (record { no_held = omega arith; no_loaded = omega arith; once = omega arith }))
        | inr more ↦ rw more (
            inl (record {
              counted = omega arith;
              kept = omega arith;
              none_freed = l.none_freed;
              fits = omega (arith, ap (λ n. alignment * n) sum);
            }))
      ]

  subtracts-Inv :
      (s : Shared) (k : ℕ)
      → s.loaded ≡ suc k
      → Inv s
      → Inv (
          returns
            (some (decref_sub alignment s.rc).1)
            (record s { rc = (decref_sub alignment s.rc).0; loaded = k }))
  unfolding decref_sub returns
  subtracts-Inv s k e (inr f) = absurd (omega arith)
  subtracts-Inv s k e (inl l) =
      let sum : s.held + s.loaded ≡ suc (s.held + k) = omega arith in
      let all = l.counted ∙ ap (λ n. rc_class + alignment * n) sum in
      let fits = subst (Countable alignment) sum l.fits in
      elim (Bool-cases (s.rc == done alignment)) [
        | inl last ↦
            let none_left = one_left (s.held + k) (ground arith) in
            rw last
              (inr (record { no_held = omega arith; no_loaded = omega arith; once = omega arith }))
        | inr more ↦ rw more (
            inl (record {
              counted = omega arith;
              kept = more_left _ (subst (λ rc. (rc == done alignment) ≡ false) all more);
              none_freed = l.none_freed;
              fits = omega arith;
            }))
      ]

  SharedStep-Inv : {s t : Shared} → SharedStep alignment s t → Inv s → Inv t
  SharedStep-Inv (shares s pos fits) = shares-Inv s pos fits
  SharedStep-Inv (loads s k e) = loads-Inv s k e
  SharedStep-Inv (subtracts s k e) = subtracts-Inv s k e

  SharedRun-Inv : {s t : Shared} → SharedRun alignment s t → Inv s → Inv t
  SharedRun-Inv (begins s) i = i
  SharedRun-Inv (goes_on r step) i = SharedStep-Inv step (SharedRun-Inv r i)

  new-Live : Countable alignment 1 → Live (new_shared alignment)
  unfolding new_shared
  new-Live fits = record {
    counted = omega arith;
    kept = omega arith;
    none_freed = refl;
    fits = fits;
  }

  -- For an alignment of at least 8: whatever steps threads take with an object whose count is new, so long
  -- as the count fits in the word, either no call of `decref` has returned true, and the word
  -- counts the references that are held or being dropped, of which there is one; or one call has
  -- returned true, and there is no such reference.
  pub run-freed_once :
      Countable alignment 1
      → {s : Shared} → SharedRun alignment (new_shared alignment) s
      → (s.freed ≡ 0
          × (0 < s.held + s.loaded)
          × (s.rc ≡ rc_class + alignment * (s.held + s.loaded)))
        ⊎ (s.freed ≡ 1 × s.held + s.loaded ≡ 0)
  run-freed_once fits r = elim (SharedRun-Inv r (inl (new-Live fits))) [
    | inl l ↦ inl (l.none_freed, l.kept, l.counted)
    | inr f ↦ inr (f.once, omega arith)
  ]
