-- ===== src/Rt/Behaviours/Missing.antt =====
-- Lists of requests and queues of messages, when one cown changes its stage.
use verona.Prelude.{
  ℕ, ◌+◌, ◌^◌, ◌<◌, ◌≤◌, ◌≡◌, ◌≢◌, ◌++◌, ap, sym, refl, List, [], ◌∷◌, true, false, ◌==◌, ltb,
  if◌then◌else◌, length, update, arith, inl, inr, Bool-cases, eq_of_==, ne_of_==, ==_self, ==_ne,
  subst,
}
use verona.Rt.Behaviours.Defs.{Request, reads_it, fetch_sub}
use verona.Rt.Behaviours.Holding.{
  Stage, away, acquired, waits, missing, member, Above, IsSorted, AllWrite, times, Unsent,
}

pub member-Above : (c k : ℕ) (rs : List Request) → Above k rs → member c rs ≡ true → k < c
member-Above c k [] a m = cc
member-Above c k (r ∷ rs) a m = elim (Bool-cases (c == r.cown)) [
  | inl e ↦ subst (λ n. k < n) (sym (eq_of_== c r.cown e)) a.0
  | inr ne ↦ member-Above c k rs a.1 (rw ne at m)
]

missing-Above :
    (st : ℕ → Stage) (c : ℕ) (x : Stage) (rs : List Request)
    → Above c rs
    → missing (update st c x) rs ≡ missing st rs
missing-Above st c x [] a = refl
missing-Above st c x (r ∷ rs) a =
    rw (==_ne r.cown c (omega arith), missing-Above st c x rs a.1) refl

==_true : (a b : ℕ) → a ≡ b → (a == b) ≡ true
==_true a b e = ground arith

-- A cown that a body waits for, once more or less.
pub missing-update :
    (st : ℕ → Stage) (c : ℕ) (x : Stage) (rs : List Request)
    → IsSorted rs
    → member c rs ≡ true
    → missing (update st c x) rs + waits (st c) ≡ missing st rs + waits x
missing-update st c x [] s m = cc
missing-update st c x (r ∷ rs) s m = elim (Bool-cases (c == r.cown)) [
  | inl e ↦
      let same : c ≡ r.cown = eq_of_== c r.cown e in
      rw (==_true r.cown c (sym same)) (
        omega (
          arith,
          missing-Above st c x rs (subst (λ n. Above n rs) (sym same) s.0),
          ap (λ n. waits (st n)) same,
        ))
  | inr ne ↦
      rw (==_ne r.cown c (λ h. ne_of_== c r.cown ne (sym h)))
        (omega (arith, missing-update st c x rs s.1 (rw ne at m)))
]

-- Where the change does not matter to what is waited for.
pub missing-update_same :
    (st : ℕ → Stage) (c : ℕ) (x : Stage) (rs : List Request)
    → waits x ≡ waits (st c)
    → missing (update st c x) rs ≡ missing st rs
missing-update_same st c x [] e = refl
missing-update_same st c x (r ∷ rs) e = elim (Bool-cases (r.cown == c)) [
  | inl h ↦ rw (h, missing-update_same st c x rs e, eq_of_== r.cown c h, e) refl
  | inr h ↦ rw (h, missing-update_same st c x rs e) refl
]

pub missing-le : (st : ℕ → Stage) (rs : List Request) → missing st rs ≤ length rs
missing-le st [] = omega arith
missing-le st (r ∷ rs) = ground (arith, missing-le st rs)

pub missing-away :
    (st : ℕ → Stage) (rs : List Request) → ((c : ℕ) → st c ≡ away) → missing st rs ≡ length rs
missing-away st [] h = refl
missing-away st (r ∷ rs) h = rw (h r.cown) (omega (arith, missing-away st rs h))

pub waits_of_missing :
    (st : ℕ → Stage) (c : ℕ) (rs : List Request)
    → missing st rs ≡ 0
    → member c rs ≡ true
    → waits (st c) ≡ 0
waits_of_missing st c [] z m = cc
waits_of_missing st c (r ∷ rs) z m = elim (Bool-cases (c == r.cown)) [
  | inl e ↦ rw (eq_of_== c r.cown e) (omega arith)
  | inr ne ↦ waits_of_missing st c rs (omega arith) (rw ne at m)
]

pub waits_le_missing :
    (st : ℕ → Stage) (c : ℕ) (rs : List Request) → member c rs ≡ true → waits (st c) ≤ missing st rs
waits_le_missing st c [] m = cc
waits_le_missing st c (r ∷ rs) m = elim (Bool-cases (c == r.cown)) [
  | inl e ↦ rw (eq_of_== c r.cown e) (omega arith)
  | inr ne ↦ omega (arith, waits_le_missing st c rs (rw ne at m))
]

-- What is still to send is not changed where another cown changes.
pub Unsent-Above :
    (st : ℕ → Stage) (all : List Request) (c : ℕ) (x : Stage) (rs : List Request)
    → Above c rs
    → Unsent st all rs
    → Unsent (update st c x) all rs
Unsent-Above st all c x [] a u = tt
Unsent-Above st all c x (r ∷ rs) a u = (
  (rw (==_ne r.cown c (omega arith)) u.0.0, u.0.1, u.0.2, u.0.3),
  Unsent-Above st all c x rs a.1 u.1,
)

pub Unsent-gone :
    (st : ℕ → Stage) (all : List Request) (c : ℕ) (x : Stage) (rs : List Request)
    → st c ≢ away
    → Unsent st all rs
    → Unsent (update st c x) all rs
Unsent-gone st all c x [] a u = tt
Unsent-gone st all c x (r ∷ rs) a u = (
  (rw (==_ne r.cown c (λ e. a (subst (λ n. st n ≡ away) e u.0.0))) u.0.0, u.0.1, u.0.2, u.0.3),
  Unsent-gone st all c x rs a u.1,
)

-- The same for one of many bodies.
pub Unsent-put :
    (st : ℕ → ℕ → Stage) (all : List Request) (b b' c : ℕ) (x : Stage) (rs : List Request)
    → st b c ≢ away
    → Unsent (st b') all rs
    → Unsent (update st b (update (st b) c x) b') all rs
Unsent-put st all b b' c x rs a u = elim (Bool-cases (b' == b)) [
  | inl e ↦
      rw e (Unsent-gone (st b) all c x rs a (subst (λ n. Unsent (st n) all rs) (eq_of_== b' b e) u))
  | inr e ↦ rw e u
]

-- At the start all requests are to be sent.
pub Unsent-all :
    (st : ℕ → Stage) (all rs : List Request)
    → ((c : ℕ) → st c ≡ away)
    → IsSorted rs
    → AllWrite rs
    → ((c : ℕ) → member c rs ≡ true → member c all ≡ true)
    → Unsent st all rs
Unsent-all st all [] a s w m = tt
Unsent-all st all (r ∷ rs) a s w m = (
  (a r.cown, w.0, m r.cown (rw (==_self r.cown) refl), s.0),
  Unsent-all st all rs a s.1 w.1
      (λ c h. m c (elim (Bool-cases (c == r.cown)) [ inl e ↦ rw e refl | inr e ↦ rw e h ])),
)

pub reads_it-AllWrite : (c : ℕ) (rs : List Request) → AllWrite rs → reads_it c rs ≡ false
unfolding reads_it
reads_it-AllWrite c [] w = refl
reads_it-AllWrite c (r ∷ rs) w = elim (Bool-cases (r.cown == c)) [
  | inl e ↦ rw e w.0
  | inr e ↦ rw e (reads_it-AllWrite c rs w.1)
]

pub times-snoc :
    (b x : ℕ) (q : List ℕ) → times b (q ++ x ∷ []) ≡ times b q + (if b == x then 1 else 0)
times-snoc b x [] = omega arith
times-snoc b x (y ∷ q) = omega (arith, times-snoc b x q)

-- `fetch_sub` counts a cown that is acquired.
pub fetch_sub-missing :
    (st : ℕ → Stage) (c n : ℕ) (rs : List Request)
    → IsSorted rs
    → length rs < 2 ^ 64
    → member c rs ≡ true
    → waits (st c) ≡ 1
    → n ≡ missing st rs
    → (0 < n) × (n < 2 ^ 64) × (fetch_sub n ≡ missing (update st c acquired) rs)
unfolding fetch_sub
fetch_sub-missing st c n rs sort short m w e =
    let fewer : missing (update st c acquired) rs + waits (st c) ≡ missing st rs + 0 =
      missing-update st c acquired rs sort m in
    let bound : missing st rs ≤ length rs = missing-le st rs in
    (omega arith, omega arith, omega arith)

pub fetch_sub_last : (n : ℕ) → 0 < n → ltb 1 n ≡ false → fetch_sub n ≡ 0
unfolding fetch_sub
fetch_sub_last n p h = let one : n ≡ 1 = ground arith in omega arith

pub fetch_sub_more : (n : ℕ) → n < 2 ^ 64 → ltb 1 n ≡ true → fetch_sub n ≢ 0
unfolding fetch_sub
fetch_sub_more n small h z = let more : 1 < n = ground arith in omega arith
