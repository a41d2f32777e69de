-- ===== src/Rt/Object/Cown.antt =====
-- The strong count of a cown (src/rt/object/object.h) as threads share it: `decref_cown` and
-- `acquire_strong_from_weak` are cut in two at their `yield`.
use verona.Prelude.{
  ℕ, suc, ◌+◌, ◌*◌, ◌^◌, ◌<◌, ◌≡◌, Bool, true, false, Option, none, some, ◌==◌, ltb, if◌then◌else◌,
}
use verona.Rt.Object.Header.{cown, make_cown, fetch_add, fetch_sub, incref, done_rc, finished_rc}

module _ (alignment : ℕ) where
  -- The first half: the new word, and the result where the call returns it.
  unfoldable pub decref_cown : ℕ → ℕ × Option Bool
  unfolding fetch_sub
  decref_cown rc =
      let (prev_rc, after) = fetch_sub alignment rc in
      (after, if prev_rc == done_rc alignment then none else some false)

  unfoldable pub acquire_strong_from_weak : ℕ → ℕ × Option Bool
  unfolding fetch_add
  acquire_strong_from_weak rc =
      let (prev_rc, after) = fetch_add alignment rc in
      (after, if ltb prev_rc finished_rc then some true else none)

-- The second half of `decref_cown`: the exchange of the zero count.
unfoldable pub decref_cown_zero : ℕ → ℕ × Bool
decref_cown_zero rc = if rc == cown then (finished_rc, true) else (rc, false)

-- The second half of a failed acquire.
unfoldable pub acquire_failed : ℕ → ℕ × Bool
acquire_failed rc = (finished_rc, false)

-- The word of a cown, the strong references that are held, the calls that stand at a `yield`, and
-- how many calls of `decref_cown` have returned true.
pub record Cown : Type 0 where
  pub rc : ℕ
  pub strong : ℕ
  pub deciding : ℕ
  pub failing : ℕ
  pub finished : ℕ

unfoldable pub new_cown : ℕ → Cown
unfolding make_cown
new_cown alignment = record {
  rc = make_cown alignment;
  strong = 1;
  deciding = 0;
  failing = 0;
  finished = 0;
}

-- What a call's result does to the references.
unfoldable pub decref_returns : Option Bool → Cown → Cown
decref_returns none c = record c { deciding = suc c.deciding }
decref_returns (some true) c = record c { finished = suc c.finished }
decref_returns (some false) c = c

unfoldable pub acquire_returns : Option Bool → Cown → Cown
acquire_returns none c = record c { failing = suc c.failing }
acquire_returns (some true) c = record c { strong = suc c.strong }
acquire_returns (some false) c = c

module _ (alignment : ℕ) where
  -- There are never so many references, nor so many calls, that their count reaches the top bit.
  abbrev pub Fits : ℕ → Type 0
  Fits k = alignment * k + alignment + cown < 2 ^ 63

  -- A step of a thread that holds a strong reference, of one that holds a weak one, or of one that
  -- stands at a `yield`.
  pub data Step : Cown → Cown → Type 0 where
    increments :
        (c : Cown)
        → 0 < c.strong
        → Fits (suc c.strong)
        → Step c (record c { rc = (incref alignment c.rc).1; strong = suc c.strong })
    decrements :
        (c : Cown) (k : ℕ)
        → c.strong ≡ suc k
        → Step c (
            decref_returns
              (decref_cown alignment c.rc).1
              (record c { rc = (decref_cown alignment c.rc).0; strong = k }))
    decides :
        (c : Cown) (k : ℕ)
        → c.deciding ≡ suc k
        → Step c (
            decref_returns
              (some (decref_cown_zero c.rc).1)
              (record c { rc = (decref_cown_zero c.rc).0; deciding = k }))
    acquires :
        (c : Cown)
        → Fits (suc c.strong)
        → Fits (suc c.failing)
        → Step c (
            acquire_returns
              (acquire_strong_from_weak alignment c.rc).1
              (record c { rc = (acquire_strong_from_weak alignment c.rc).0 }))
    fails :
        (c : Cown) (k : ℕ)
        → c.failing ≡ suc k
        → Step c (
            acquire_returns
              (some (acquire_failed c.rc).1)
              (record c { rc = (acquire_failed c.rc).0; failing = k }))

  pub data Run : Cown → Cown → Type 0 where
    no_step : (c : Cown) → Run c c
    one_more : {c d e : Cown} → Run c d → Step d e → Run c e
