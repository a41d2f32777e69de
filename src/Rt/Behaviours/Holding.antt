-- ===== src/Rt/Behaviours/Holding.antt =====
-- Who holds each cown, and how far each body is with each of its cowns.
use verona.Prelude.{
  ℕ, ◌+◌, ◌^◌, ◌<◌, ◌≡◌, ◌≢◌, List, [], ◌∷◌, Bool, true, false, ◌==◌, if◌then◌else◌, Option, none,
  some, length, update, All,
}
use verona.Rt.Behaviours.Defs.{
  Request, Call, unsent, locking, sending, sent, claimed, adding, returned, Turn, idle, running,
  stepping, executing, releasing, System,
}

-- A cown is asleep, in the scheduler queues, claimed by the call of a body, run by a thread, or
-- acquired by a body.
pub data Owner : Type 0 where
  nobody : Owner
  waiting : Owner
  sender : ℕ → Owner
  hand : ℕ → Owner
  body : ℕ → Owner

-- The message of a body to a cown is not sent, in the queue, taken by a thread, or the body has acquired
-- the cown, or released it.
pub data Stage : Type 0 where
  away queued taken acquired released : Stage

pub record Ghost : Type 0 where
  pub owner : ℕ → Owner
  pub stage : ℕ → ℕ → Stage
  pub runner : ℕ → Option ℕ

abbrev pub own : ℕ → Owner → Ghost → Ghost
own c o g = record g { owner = update g.owner c o }

abbrev pub put : ℕ → ℕ → Stage → Ghost → Ghost
put b c x g = record g { stage = update g.stage b (update (g.stage b) c x) }

abbrev pub waits : Stage → ℕ
waits away = 1
waits queued = 1
waits taken = 1
waits acquired = 0
waits released = 0

abbrev pub is_queued : Stage → ℕ
is_queued queued = 1
is_queued _ = 0

abbrev pub is_waiting : Owner → ℕ
is_waiting waiting = 1
is_waiting _ = 0

abbrev pub is_nobody : Owner → Bool
is_nobody nobody = true
is_nobody _ = false

abbrev pub asleep : Option (List ℕ) → Bool
asleep none = true
asleep (some q) = false

-- How many of these requests a body still waits for.
abbrev pub missing : (ℕ → Stage) → List Request → ℕ
missing st [] = 0
missing st (r ∷ rs) = waits (st r.cown) + missing st rs

abbrev pub member : ℕ → List Request → Bool
member c [] = false
member c (r ∷ rs) = if c == r.cown then true else member c rs

-- The requests are strictly sorted by cown, so each cown is there once, and all are for writing.
abbrev pub Above : ℕ → List Request → Type 0
Above c = All (λ r. c < r.cown)

abbrev pub IsSorted : List Request → Type 0
IsSorted [] = Unit
IsSorted (r ∷ rs) = Above r.cown rs × IsSorted rs

abbrev pub AllWrite : List Request → Type 0
AllWrite = All (λ r. r.is_read ≡ false)

-- How often a body is in a queue, and whether it is the first.
abbrev pub times : ℕ → List ℕ → ℕ
times b [] = 0
times b (x ∷ q) = (if b == x then 1 else 0) + times b q

abbrev pub times_in : ℕ → Option (List ℕ) → ℕ
times_in b none = 0
times_in b (some q) = times b q

abbrev pub IsFirst : ℕ → Option (List ℕ) → Type 0
IsFirst b none = ⊥
IsFirst b (some []) = ⊥
IsFirst b (some (x ∷ q)) = x ≡ b

-- Requests that a call has still to send.
abbrev pub Unsent : (ℕ → Stage) → List Request → List Request → Type 0
Unsent st all [] = Unit
Unsent st all (r ∷ rs) =
    (st r.cown ≡ away × r.is_read ≡ false × member r.cown all ≡ true × Above r.cown rs)
    × Unsent st all rs

-- The first of some requests is claimed by the call for `b`, whose message is the first in the queue.
abbrev pub Claimed : System → Ghost → ℕ → List Request → Type 0
Claimed s g b [] = ⊥
Claimed s g b (r ∷ rs) = g.owner r.cown ≡ sender b × IsFirst b (s.queue r.cown)

abbrev pub Rest : (ℕ → Stage) → List Request → List Request → Type 0
Rest st all [] = ⊥
Rest st all (r ∷ rs) =
    (r.is_read ≡ false × member r.cown all ≡ true × Above r.cown rs) × Unsent st all rs

abbrev pub CallOk : (ℕ → List Request) → System → Ghost → ℕ → Call → Type 0
CallOk requests s g b unsent = (c : ℕ) → g.stage b c ≡ away
CallOk requests s g b (locking rs) = (c : ℕ) → g.stage b c ≡ away
CallOk requests s g b (sending rs) = Unsent (g.stage b) (requests b) rs
CallOk requests s g b (sent rs true) = Claimed s g b rs × Rest (g.stage b) (requests b) rs
CallOk requests s g b (sent rs false) = Rest (g.stage b) (requests b) rs
CallOk requests s g b (claimed rs) = Claimed s g b rs × Rest (g.stage b) (requests b) rs
CallOk requests s g b (adding rs) = ⊥
CallOk requests s g b returned = Unit

-- The thread `t` alone executes the body `b`, for which the cown `c` ran.
abbrev pub Alone : (ℕ → List Request) → System → Ghost → ℕ → ℕ → ℕ → Type 0
Alone requests s g t c b = g.runner b ≡ some t × s.exec_count_down b ≡ 0 × g.stage b c ≡ acquired

abbrev pub TurnOk : (ℕ → List Request) → System → Ghost → ℕ → Turn → Type 0
TurnOk requests s g t idle = Unit
TurnOk requests s g t (running c) = g.owner c ≡ hand t
TurnOk requests s g t (stepping c b) = g.owner c ≡ hand t × g.stage b c ≡ taken
TurnOk requests s g t (executing c b after) =
    Alone requests s g t c b
    × after ≡ true
    × ((c' : ℕ) → member c' (requests b) ≡ true → g.stage b c' ≡ acquired)
TurnOk requests s g t (releasing c b after rs) =
    Alone requests s g t c b
    × after ≡ true
    × (IsSorted rs × AllWrite rs)
    × ((c' : ℕ) → member c' rs ≡ true → g.stage b c' ≡ acquired)

abbrev pub is_unsent : Call → Bool
is_unsent unsent = true
is_unsent _ = false

pub record Inv (requests : ℕ → List Request) (s : System) (g : Ghost) : Type 0 where
  pub sleeps : (c : ℕ) → asleep (s.queue c) ≡ is_nobody (g.owner c)
  pub scheduled_once : (c : ℕ) → s.scheduled c ≡ is_waiting (g.owner c)
  pub in_queue : (b c : ℕ) → times_in b (s.queue c) ≡ is_queued (g.stage b c)
  pub counts :
      (b : ℕ)
      → is_unsent (s.calls b) ≡ false
      → s.exec_count_down b ≡ missing (g.stage b) (requests b)
  pub owned : (b c : ℕ) → g.stage b c ≡ acquired → g.owner c ≡ body b
  pub ended : (b c : ℕ) → g.stage b c ≡ released → s.exec_count_down b ≡ 0
  pub requested : (b c : ℕ) → g.stage b c ≢ away → member c (requests b) ≡ true
  pub unread : (c : ℕ) → s.read_ref_count c ≡ 0
  pub call_ok : (b : ℕ) → CallOk requests s g b (s.calls b)
  pub turn_ok : (t : ℕ) → TurnOk requests s g t (s.turns t)

-- What is asked of the requests that a program schedules, behind the sort: they are for writing, and no
-- body requests a cown twice, as std::sort keeps both and `fast_send` would take the same lock twice.
pub record WritesOnly (requests : ℕ → List Request) : Type 0 where
  pub sorted : (b : ℕ) → IsSorted (requests b)
  pub writes : (b : ℕ) → AllWrite (requests b)
  pub short : (b : ℕ) → length (requests b) < 2 ^ 64
