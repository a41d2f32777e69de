-- ===== src/Rt/Behaviours/Order/Defs.antt =====
-- Who holds each lock, when the calls with several requests had all their locks, and what is under way
-- for each cown that is awake.
use verona.Prelude.{
  ℕ, ◌<◌, ◌≡◌, ◌≢◌, List, [], ◌∷◌, Bool, true, false, ◌==◌, ltb, if◌then◌else◌, Option, none, some,
  length,
}
use verona.Rt.Behaviours.Defs.{
  Request, Call, unsent, locking, sending, sent, claimed, adding, returned, Turn, idle, running,
  stepping, executing, releasing, System,
}
use verona.Rt.Behaviours.Holding.{
  sender, hand, body, Stage, away, queued, taken, acquired, released, Ghost, member, Above,
  IsSorted, times, TurnOk,
}

pub record Times : Type 0 where
  pub holder : ℕ → ℕ
  pub stamp : ℕ → ℕ
  pub clock : ℕ

abbrev pub several : List Request → Bool
several rs = ltb 1 (length rs)

-- Whether a call with several requests holds the lock of a cown.
abbrev pub keeps_lock : List Request → ℕ → Call → Bool
keeps_lock all c unsent = false
keeps_lock all c (locking rs) = if member c rs then false else member c all
keeps_lock all c (sending rs) = member c rs
keeps_lock all c (sent rs n) = member c rs
keeps_lock all c (claimed []) = false
keeps_lock all c (claimed (r ∷ rs)) = member c rs
keeps_lock all c (adding rs) = false
keeps_lock all c returned = false

-- Whether a call has still to send to a cown that it wants.
abbrev pub pending : ℕ → Call → Bool
pending c unsent = true
pending c (locking rs) = true
pending c (sending rs) = member c rs
pending c (sent [] n) = false
pending c (sent (r ∷ rs) n) = member c rs
pending c (claimed []) = false
pending c (claimed (r ∷ rs)) = member c rs
pending c (adding rs) = false
pending c returned = false

abbrev pub claims : ℕ → Call → Bool
claims c (sent (r ∷ rs) true) = c == r.cown
claims c (claimed (r ∷ rs)) = c == r.cown
claims c _ = false

abbrev pub handles : ℕ → Turn → Bool
handles c (running c') = c == c'
handles c (stepping c' b) = c == c'
handles c _ = false

abbrev pub works_for : ℕ → Turn → Bool
works_for b (executing c b' after) = b == b'
works_for b (releasing c b' after rs) = b == b'
works_for b _ = false

-- Whether a call has all its locks, or has had them.
abbrev pub committed : Call → Bool
committed unsent = false
committed (locking rs) = false
committed _ = true

abbrev pub level : Stage → ℕ
level away = 0
level queued = 1
level taken = 2
level acquired = 2
level released = 2

-- In a queue the bodies with several requests stand in the order of their stamps.
abbrev pub Chain : (ℕ → List Request) → (ℕ → ℕ) → List ℕ → Type 0
Chain requests stamp [] = Unit
Chain requests stamp (x ∷ q) =
    ((y : ℕ)
      → times y q ≢ 0
      → several (requests x) ≡ true
      → several (requests y) ≡ true
      → stamp x < stamp y)
    × Chain requests stamp q

abbrev pub InOrder : (ℕ → List Request) → (ℕ → ℕ) → Option (List ℕ) → Type 0
InOrder requests stamp none = Unit
InOrder requests stamp (some q) = Chain requests stamp q

-- The locks are taken in the order of the cowns.
abbrev pub LocksInOrder : List Request → Call → Type 0
LocksInOrder all (locking rs) =
    several all ≡ true
    × ((c : ℕ) → member c all ≡ true → member c rs ≡ false → Above c rs)
    × ((c : ℕ) → member c rs ≡ true → member c all ≡ true)
    × IsSorted rs
LocksInOrder all _ = Unit

-- A thread that gives back the cowns of a body has still to give back those that are acquired.
abbrev pub ReleasesAll : Ghost → Turn → Type 0
ReleasesAll g (releasing c b after rs) =
    (c' : ℕ) → g.stage b c' ≡ acquired → c' ≢ c → member c' rs ≡ true
ReleasesAll g _ = Unit

pub record Ordered (requests : ℕ → List Request) (s : System) (g : Ghost) (o : Times) : Type 0 where
  pub unsent_pending :
      (b c : ℕ) → member c (requests b) ≡ true → g.stage b c ≡ away → pending c (s.calls b) ≡ true
  pub sender_claims : (b c : ℕ) → g.owner c ≡ sender b → claims c (s.calls b) ≡ true
  pub hand_handles : (t c : ℕ) → g.owner c ≡ hand t → handles c (s.turns t) ≡ true
  pub taken_steps : (b c : ℕ) → g.stage b c ≡ taken → (t : ℕ) × (s.turns t ≡ stepping c b)
  pub body_acquired : (b c : ℕ) → g.owner c ≡ body b → g.stage b c ≡ acquired
  pub complete_works :
      (b c : ℕ)
      → g.stage b c ≡ acquired
      → s.exec_count_down b ≡ 0
      → (t : ℕ) × (works_for b (s.turns t) ≡ true)
  pub keeper_holds :
      (b c : ℕ)
      → several (requests b) ≡ true
      → keeps_lock (requests b) c (s.calls b) ≡ true
      → (s.enqueue_lock c ≡ true) × (o.holder c ≡ b)
  pub lock_kept :
      (c : ℕ)
      → s.enqueue_lock c ≡ true
      → (several (requests (o.holder c)) ≡ true)
        × (keeps_lock (requests (o.holder c)) c (s.calls (o.holder c)) ≡ true)
  pub stamped :
      (b : ℕ) → several (requests b) ≡ true → committed (s.calls b) ≡ true → o.stamp b < o.clock
  pub older :
      (b b' c : ℕ)
      → several (requests b) ≡ true
      → several (requests b') ≡ true
      → committed (s.calls b') ≡ true
      → member c (requests b') ≡ true
      → level (g.stage b' c) < level (g.stage b c)
      → o.stamp b < o.stamp b'
  pub in_order : (c : ℕ) → InOrder requests o.stamp (s.queue c)
  pub locks_in_order : (b : ℕ) → LocksInOrder (requests b) (s.calls b)
  pub releases_all : (t : ℕ) → ReleasesAll g (s.turns t)

-- What a thread has still to give back does not grow where other bodies acquire.
pub ReleasesAll-frame :
    (requests : ℕ → List Request) (s : System) (g g' : Ghost) (t : ℕ) (x : Turn)
    → ((b c : ℕ) → s.exec_count_down b ≡ 0 → g'.stage b c ≡ acquired → g.stage b c ≡ acquired)
    → TurnOk requests s g t x
    → ReleasesAll g x
    → ReleasesAll g' x
ReleasesAll-frame requests s g g' t idle f k h = tt
ReleasesAll-frame requests s g g' t (running c) f k h = tt
ReleasesAll-frame requests s g g' t (stepping c b) f k h = tt
ReleasesAll-frame requests s g g' t (executing c b after) f k h = tt
ReleasesAll-frame requests s g g' t (releasing c b after rs) f k h =
    λ c' a ne. h c' (f b c' k.0.1 a) ne
