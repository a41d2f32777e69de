-- ===== src/Rt/Behaviours/Progress.antt =====
-- Behaviours whose requests are apart do not deadlock: when nothing can go on, nothing is left to do.
use verona.Prelude.{
  ℕ, zero, suc, ◌+◌, ◌<◌, ◌≤◌, ◌≡◌, ◌⊎◌, List, ◌∷◌, true, false, none, arith, inl, inr, subst,
}
use verona.Rt.Behaviours.Defs.{Request, unsent, locking, returned, System, Reachable}
use verona.Rt.Behaviours.Holding.{Ghost, member, is_unsent, Inv, WritesOnly}
use verona.Rt.Behaviours.Order.Defs.{Times, LocksInOrder, Ordered}
use verona.Rt.Behaviours.Running.{Reachable-Good}
use verona.Rt.Behaviours.Waiting.{IsQuiet, kind, next_waiting, all_done, all_asleep, all_unlocked}

module _ {requests : ℕ → List Request} {s : System} {g : Ghost} {o : Times} (inv : Inv requests s g)
    (ord : Ordered requests s g o) (quiet : IsQuiet requests s) where
  -- No call waits for a lock, where the cowns are bounded.
  module _ (bound : ℕ) (below : (b c : ℕ) → member c (requests b) ≡ true → c < bound) where
    no_lock_wait :
        (n b : ℕ) (r : Request) (more : List Request)
        → s.calls b ≡ locking (r ∷ more)
        → s.enqueue_lock r.cown ≡ true
        → bound ≤ n + r.cown
        → ⊥
    no_lock_wait zero b r more e l lt =
        let known : LocksInOrder (requests b) (locking (r ∷ more)) =
          subst (LocksInOrder (requests b)) e (ord.locks_in_order b) in
        let small : r.cown < bound = below b r.cown (known.2 r.cown (ground arith)) in
        absurd (omega arith)
    no_lock_wait (suc n) b r more e l lt =
        let (h, r', more', e', l', later) = next_waiting inv ord quiet r l in
        no_lock_wait n h r' more' e' l' (omega arith)

    all_settled : (b : ℕ) → (s.calls b ≡ unsent) ⊎ (s.calls b ≡ returned)
    all_settled b = by_kind (kind inv ord quiet b)
      where
        by_kind :
            (s.calls b ≡ unsent)
              ⊎ (s.calls b ≡ returned)
              ⊎ ((r : Request) × (more : List Request) × (s.calls b ≡ locking (r ∷ more))
                  × (s.enqueue_lock r.cown ≡ true))
            → (s.calls b ≡ unsent) ⊎ (s.calls b ≡ returned)
        by_kind (inl e) = inl e
        by_kind (inr (inl e)) = inr e
        by_kind (inr (inr (r, more, e, l))) = absurd (no_lock_wait bound b r more e l (omega arith))

-- In any reachable state of a program that schedules only writes, where the requests of a body are sorted
-- and no cown is among them twice, and of cowns below a bound: when nothing can go on but a new call, each call that has begun has returned and its body waits
-- for no cown, and every cown sleeps, with its lock free. So such behaviours do not deadlock.
pub quiet_is_done :
    {requests : ℕ → List Request} {s : System} (bound : ℕ)
    → WritesOnly requests
    → ((b c : ℕ) → member c (requests b) ≡ true → c < bound)
    → Reachable requests s
    → IsQuiet requests s
    → ((b : ℕ) → is_unsent (s.calls b) ≡ false → (s.calls b ≡ returned) × (s.exec_count_down b ≡ 0))
      × ((c : ℕ) → (s.queue c ≡ none) × (s.enqueue_lock c ≡ false))
quiet_is_done bound w below r quiet =
    let (g, o, inv, ord) = Reachable-Good w r in
    let settled = all_settled inv ord quiet bound below in
    (
      λ b begun. elim (settled b) [
        | inl e ↦ let stuck : true ≡ false = rw e at begun in cc
        | inr e ↦ (e, all_done inv ord quiet settled b e)
      ],
      λ c. (all_asleep inv ord quiet settled c, all_unlocked inv ord quiet settled c),
    )
