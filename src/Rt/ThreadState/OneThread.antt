-- ===== src/Rt/ThreadState/OneThread.antt =====
-- A thread pool with one scheduler thread: the vote that starts a cycle is at once the last one, so
-- no vote is left for the step out of `Scan`.
use verona.Prelude.{
  ℕ, zero, suc, ◌≡◌, refl, ◌⊎◌, inl, subst, some-injective, Bool, some, List, [], ◌∷◌, arith,
  get_elem?, set,
}
use verona.Rt.ThreadState.Defs.{not_in_ld, want_ld, scan, ThreadState, next, dispatch}
use verona.Rt.ThreadState.Thread.{
  Thread, System, want, check, work, round, Reach, start, later, ask, request_ld,
  believe_done_check,
}

-- Where the pool and its one thread are.
abbrev Idle : ThreadState → Thread → Type 0
Idle ts t =
    (ts.state ≡ not_in_ld) × (ts.vote_yes ≡ 0) × ((t.state ≡ not_in_ld) ⊎ (t.state ≡ want_ld))

abbrev Scanning : ThreadState → Thread → Type 0
Scanning ts t = (ts.state ≡ scan) × (t.state ≡ scan)

abbrev Alone : ThreadState → Thread → Type 0
Alone ts t = Idle ts t ⊎ Scanning ts t

-- The list holds one thread, with the property.
abbrev Single : (Thread → Type 0) → List Thread → Type 0
Single P [] = ⊥
Single P (t ∷ []) = P t
Single P (t ∷ u ∷ r) = ⊥

ask-Alone :
    (ts : ThreadState) (t : Thread) {ts' : ThreadState} {t' : Thread}
    → ask ts t 1 ≡ some (ts', t')
    → Alone ts t
    → Alone ts' t'
unfolding ask next dispatch
ask-Alone ts t h a = ground arith

module _ (P : Thread → Type 0) where
  Single-thread :
      (threads : List Thread) (i : ℕ) {t : Thread}
      → Single P threads
      → get_elem? threads i ≡ some t
      → P t
  Single-thread (x ∷ []) zero h at = subst P (some-injective _ _ at) h
  Single-thread (x ∷ []) (suc i) h at = cc
  Single-thread [] i h at = elim h [ ]
  Single-thread (x ∷ y ∷ r) i h at = elim h [ ]

  Single-set :
      (Q : Thread → Type 0) (threads : List Thread) (i : ℕ) {t : Thread} (v : Thread)
      → Single P threads
      → get_elem? threads i ≡ some t
      → Q v
      → Single Q (set threads i v)
  Single-set Q (x ∷ []) zero v h at q = q
  Single-set Q (x ∷ []) (suc i) v h at q = cc
  Single-set Q [] i v h at q = elim h [ ]
  Single-set Q (x ∷ y ∷ r) i v h at q = elim h [ ]

request_ld-Alone : (ts : ThreadState) (t : Thread) → Alone ts t → Alone ts (request_ld t)
unfolding request_ld
request_ld-Alone ts t a = ground arith

check-Alone :
    (ts : ThreadState) (q : Bool) (t : Thread) → Alone ts t → Alone ts (believe_done_check q t)
unfolding believe_done_check
check-Alone ts q t a = ground arith

Reach-Alone : {s : System} → Reach 1 s → Single (Alone s.pool) s.threads
Reach-Alone start = inl (refl, refl, inl refl)
Reach-Alone (later {s} r (want i {t} at)) =
    let h = Reach-Alone r in
    Single-set _ (Alone s.pool) s.threads i (request_ld t) h at
      (request_ld-Alone s.pool t (Single-thread _ s.threads i h at))
Reach-Alone (later {s} r (check i q {t} at)) =
    let h = Reach-Alone r in
    Single-set _ (Alone s.pool) s.threads i (believe_done_check q t) h at
      (check-Alone s.pool q t (Single-thread _ s.threads i h at))
Reach-Alone (later {s} r (work i k u {t} at)) =
    let h = Reach-Alone r in
    Single-set _ (Alone s.pool) s.threads i
      (record t { n_ld_tokens = k; scheduled_unscanned_cown = u }) h at
      (Single-thread (Alone s.pool) s.threads i h at)
Reach-Alone (later {s} r (round i {t} {t'} {ts} at answer)) =
    let h = Reach-Alone r in
    Single-set _ (Alone ts) s.threads i t' h at
      (ask-Alone s.pool t answer (Single-thread _ s.threads i h at))

-- With one scheduler thread the global state is `NotInLD` or `Scan` in every reachable state, so no
-- cycle sweeps; and once it is `Scan`, the thread is in `Scan` too, and what the global state
-- answers to its questions changes neither.
pub one_thread_never_sweeps :
    {s : System} (i : ℕ) (t : Thread)
    → Reach 1 s
    → get_elem? s.threads i ≡ some t
    → (s.pool.state ≡ not_in_ld)
      ⊎ ((s.pool.state ≡ scan) × (t.state ≡ scan) × (ask s.pool t 1 ≡ some (s.pool, t)))
unfolding ask next dispatch
one_thread_never_sweeps {s} i t r at =
    let a = Single-thread (Alone s.pool) s.threads i (Reach-Alone r) at in ground arith
