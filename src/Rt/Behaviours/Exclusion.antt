-- ===== src/Rt/Behaviours/Exclusion.antt =====
-- Behaviours that share a cown exclude each other; the assertions of `fast_send` and `run` hold.
use verona.Prelude.{
  ℕ, ◌≤◌, ◌≡◌, ap, sym, ◌∙◌, List, ◌∷◌, Bool, true, false, some-injective, arith, subst,
}
use verona.Rt.Behaviours.Defs.{Request, claimed, Turn, running, executing, System, Reachable}
use verona.Rt.Behaviours.Holding.{
  Owner, hand, body, Ghost, member, asleep, is_nobody, CallOk, TurnOk, IsFirst, Inv, WritesOnly,
}
use verona.Rt.Behaviours.Running.{Reachable-Good}

-- The body that an owner names.
abbrev body_of : Owner → ℕ
body_of (body b) = b
body_of _ = 0

abbrev hand_of : Owner → ℕ
hand_of (hand t) = t
hand_of _ = 0

module _ {requests : ℕ → List Request} {s : System} {g : Ghost} (inv : Inv requests s g) where
  at_turn : (t : ℕ) {y : Turn} → s.turns t ≡ y → TurnOk requests s g t y
  at_turn t e = subst (TurnOk requests s g t) e (inv.turn_ok t)

  same_body :
      {c c' b b' : ℕ} {after after' : Bool} (t t' x : ℕ)
      → s.turns t ≡ executing c b after
      → s.turns t' ≡ executing c' b' after'
      → member x (requests b) ≡ true
      → member x (requests b') ≡ true
      → b ≡ b'
  same_body {c} {c'} {b} {b'} t t' x e e' m m' =
      ap body_of
        (sym (inv.owned b x ((at_turn t e).2 x m)) ∙ inv.owned b' x ((at_turn t' e').2 x m'))

  same_thread :
      {c c' b b' : ℕ} {after after' : Bool} (t t' : ℕ)
      → s.turns t ≡ executing c b after
      → s.turns t' ≡ executing c' b' after'
      → b ≡ b'
      → t ≡ t'
  same_thread t t' e e' same =
      some-injective _ _ (sym (at_turn t e).0.0 ∙ ap g.runner same ∙ (at_turn t' e').0.0)

-- In any reachable state of a program that schedules only writes, with strictly sorted requests: if two threads
-- execute behaviours whose requests share a cown, then they are the same thread and the same body.
pub executing_exclude :
    {requests : ℕ → List Request} {s : System} {c c' b b' : ℕ} {after after' : Bool} (t t' x : ℕ)
    → WritesOnly requests
    → Reachable requests s
    → s.turns t ≡ executing c b after
    → s.turns t' ≡ executing c' b' after'
    → member x (requests b) ≡ true
    → member x (requests b') ≡ true
    → (t ≡ t') × (b ≡ b')
executing_exclude t t' x w r e e' m m' =
    let (g, o, inv, ord) = Reachable-Good w r in
    let same = same_body inv t t' x e e' m m' in (same_thread inv t t' e e' same, same)

-- In any reachable state of a program that schedules only writes, with strictly sorted requests: a call that has
-- found a cown asleep finds its own message at the front of the queue, so the assertion `m == m2` of
-- `fast_send` holds; and the queue of a cown that runs is awake, as `run` asserts.
pub assertions_hold :
    {requests : ℕ → List Request} {s : System}
    → WritesOnly requests
    → Reachable requests s
    → ((b : ℕ) (q : Request) (qs : List Request)
        → s.calls b ≡ claimed (q ∷ qs)
        → IsFirst b (s.queue q.cown))
      × ((t c : ℕ) → s.turns t ≡ running c → asleep (s.queue c) ≡ false)
assertions_hold {requests} {s} w r =
    let (g, o, inv, ord) = Reachable-Good w r in
    (
      λ b q qs e. (subst (CallOk requests s g b) e (inv.call_ok b)).0.1,
      λ t c e. inv.sleeps c ∙ ap is_nobody (at_turn inv t e),
    )

-- In any reachable state of a program that schedules only writes, with strictly sorted requests: a cown is at
-- most once in the scheduler queues; it is not there while a thread runs it or executes a behaviour
-- that requested it; and no two threads run the same cown.
pub scheduled_at_most_once :
    {requests : ℕ → List Request} {s : System}
    → WritesOnly requests
    → Reachable requests s
    → ((c : ℕ) → s.scheduled c ≤ 1)
      × ((t c : ℕ) → s.turns t ≡ running c → s.scheduled c ≡ 0)
      × ((t c b x : ℕ) (after : Bool)
          → s.turns t ≡ executing c b after
          → member x (requests b) ≡ true
          → s.scheduled x ≡ 0)
      × ((t t' c : ℕ) → s.turns t ≡ running c → s.turns t' ≡ running c → t ≡ t')
scheduled_at_most_once w r =
    let (g, o, inv, ord) = Reachable-Good w r in
    (
      λ c. ground (arith, inv.scheduled_once c),
      λ t c e. ground (arith, inv.scheduled_once c, at_turn inv t e),
      λ t c b x after e m.
          ground (arith, inv.scheduled_once x, inv.owned b x ((at_turn inv t e).2 x m)),
      λ t t' c e e'. ap hand_of (sym (at_turn inv t e) ∙ at_turn inv t' e'),
    )
