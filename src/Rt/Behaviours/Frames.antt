-- ===== src/Rt/Behaviours/Frames.antt =====
-- What a call and a thread know stays true where others act.
use verona.Prelude.{ℕ, ◌≡◌, sym, List, [], ◌∷◌, true, false, some, subst}
use verona.Rt.Behaviours.Defs.{
  Request, Call, unsent, locking, sending, sent, claimed, adding, returned, Turn, idle, running,
  stepping, executing, releasing, System,
}
use verona.Rt.Behaviours.Holding.{
  sender, hand, away, taken, acquired, Ghost, IsFirst, Unsent, Claimed, Rest, CallOk, TurnOk, Alone,
}

module _ (requests : ℕ → List Request) (s s' : System) (g g' : Ghost) where
  -- A claim of `b` stays, and its message stays the first.
  abbrev pub KeepsClaims : ℕ → Type 0
  KeepsClaims b =
      (c : ℕ)
      → g.owner c ≡ sender b
      → IsFirst b (s.queue c)
      → (g'.owner c ≡ sender b) × IsFirst b (s'.queue c)

  -- The stages of `b` are the same, or one that was not away has changed.
  abbrev pub KeepsUnsent : ℕ → Type 0
  KeepsUnsent b =
      (rs : List Request) → Unsent (g.stage b) (requests b) rs → Unsent (g'.stage b) (requests b) rs

  Claimed-frame :
      (b : ℕ) (rs : List Request) → KeepsClaims b → Claimed s g b rs → Claimed s' g' b rs
  Claimed-frame b [] k h = h
  Claimed-frame b (r ∷ rs) k h = k r.cown h.0 h.1

  Rest-frame :
      (b : ℕ) (rs : List Request)
      → KeepsUnsent b
      → Rest (g.stage b) (requests b) rs
      → Rest (g'.stage b) (requests b) rs
  Rest-frame b [] k h = h
  Rest-frame b (r ∷ rs) k h = (h.0, k rs h.1)

  pub CallOk-frame :
      (b : ℕ) (x : Call)
      → KeepsClaims b
      → KeepsUnsent b
      → ((c : ℕ) → g.stage b c ≡ away → g'.stage b c ≡ away)
      → CallOk requests s g b x
      → CallOk requests s' g' b x
  CallOk-frame b unsent k u a h = λ c. a c (h c)
  CallOk-frame b (locking rs) k u a h = λ c. a c (h c)
  CallOk-frame b (sending rs) k u a h = u rs h
  CallOk-frame b (sent rs true) k u a h = (Claimed-frame b rs k h.0, Rest-frame b rs u h.1)
  CallOk-frame b (sent rs false) k u a h = Rest-frame b rs u h
  CallOk-frame b (claimed rs) k u a h = (Claimed-frame b rs k h.0, Rest-frame b rs u h.1)
  CallOk-frame b (adding rs) k u a h = h
  CallOk-frame b returned k u a h = tt

  -- So it is for a body whose stages are as before.
  pub CallOk-other :
      (b : ℕ) (x : Call)
      → KeepsClaims b
      → g'.stage b ≡ g.stage b
      → CallOk requests s g b x
      → CallOk requests s' g' b x
  CallOk-other b x k e =
      CallOk-frame b x k (λ rs u. subst (λ f. Unsent f (requests b) rs) (sym e) u)
        (λ c a. subst (λ f. f c ≡ away) (sym e) a)

  -- What a thread keeps: the cown that it runs, a message that it took, and a body that it executes.
  abbrev pub KeepsHand : ℕ → Type 0
  KeepsHand t =
      (c : ℕ)
      → g.owner c ≡ hand t
      → (g'.owner c ≡ hand t) × ((b : ℕ) → g.stage b c ≡ taken → g'.stage b c ≡ taken)

  abbrev pub KeepsBody : ℕ → Type 0
  KeepsBody t =
      (b c : ℕ)
      → g.runner b ≡ some t
      → s.exec_count_down b ≡ 0
      → g.stage b c ≡ acquired
      → (g'.runner b ≡ some t)
        × (s'.exec_count_down b ≡ 0)
        × ((c : ℕ) → g.stage b c ≡ acquired → g'.stage b c ≡ acquired)

  Alone-frame : (t c b : ℕ) → KeepsBody t → Alone requests s g t c b → Alone requests s' g' t c b
  Alone-frame t c b k h = let kept = k b c h.0 h.1 h.2 in (kept.0, kept.1, kept.2 c h.2)

  pub TurnOk-frame :
      (t : ℕ) (x : Turn)
      → KeepsHand t
      → KeepsBody t
      → TurnOk requests s g t x
      → TurnOk requests s' g' t x
  TurnOk-frame t idle kh kb h = tt
  TurnOk-frame t (running c) kh kb h = (kh c h).0
  TurnOk-frame t (stepping c b) kh kb h = ((kh c h.0).0, (kh c h.0).1 b h.1)
  TurnOk-frame t (executing c b after) kh kb h =
      (Alone-frame t c b kb h.0, h.1, λ c' m. (kb b c h.0.0 h.0.1 h.0.2).2 c' (h.2 c' m))
  TurnOk-frame t (releasing c b after rs) kh kb h =
      (Alone-frame t c b kb h.0, h.1, h.2, λ c' m. (kb b c h.0.0 h.0.1 h.0.2).2 c' (h.3 c' m))
