-- ===== src/Rt/Object/Root.antt =====
-- `root_and_class` of src/rt/object/object.h: the root that an object of a strongly connected
-- component points to, through a chain of `SCC_PTR` objects that is halved on the way.
use native.Mathlib.Nat
use verona.Prelude.{
  ℕ, zero, suc, ◌*◌, ◌/◌, ◌<◌, ◌≤◌, ◌≡◌, refl, sym, ap, subst, ◌∙◌, inl, inr, Bool, true, false,
  Option, none, some, ◌==◌, if◌then◌else◌, arith, Bool-cases, eq_of_==, ==_ne,
}
use verona.Rt.Object.Header.{get_class, get_scc, set_scc, scc_ptr}

-- The header words of all objects, by the address of the object.
abbrev pub Headers : Type 0
Headers = ℕ → ℕ

abbrev pub store : Headers → ℕ → ℕ → Headers
store h o bits x = if x == o then bits else h x

module _ (alignment : ℕ) where
  abbrev pub is_scc : Headers → ℕ → Bool
  is_scc h o = get_class alignment (h o) == scc_ptr

  -- The loop, whose rounds are the fuel: the root, its class, and the headers that it leaves.
  unfoldable pub halve : ℕ → Headers → ℕ → ℕ → Option (ℕ × ℕ × Headers)
  halve zero h curr parent = none
  halve (suc fuel) h curr parent =
      let grand_parent = get_scc alignment (h parent) in
      let rest = halve fuel (store h curr (set_scc alignment grand_parent)) parent grand_parent in
      if is_scc h parent then rest else some (parent, get_class alignment (h parent), h)

  unfoldable pub root_and_class : ℕ → Headers → ℕ → Option (ℕ × ℕ × Headers)
  unfolding halve
  root_and_class fuel h o =
      if is_scc h o
      then halve fuel h o (get_scc alignment (h o))
      else some (o, get_class alignment (h o), h)

  -- From `o` the pointers lead to the root `r` in a number of steps.
  pub data Root (h : Headers) : ℕ → ℕ → ℕ → Type 0 where
    is_root : (r : ℕ) → is_scc h r ≡ false → Root h 0 r r
    points :
        (o n r : ℕ) → is_scc h o ≡ true → Root h n (get_scc alignment (h o)) r → Root h (suc n) o r

module _ (alignment : ℕ) (aligned : 8 ≤ alignment) where
  class-set : (b : ℕ) → get_class alignment (set_scc alignment (get_scc alignment b)) ≡ scc_ptr
  unfolding get_class set_scc get_scc
  class-set b =
      Nat.mul-add-mod_self_right (b / alignment) alignment 2 ∙ Nat.mod-eq_of_lt (omega arith)

  scc-set :
      (b : ℕ) → get_scc alignment (set_scc alignment (get_scc alignment b)) ≡ get_scc alignment b
  unfolding set_scc get_scc
  scc-set b =
      let small : 2 / alignment ≡ 0 = Nat.div-eq_of_lt (omega arith) in
      ap (λ k. k * alignment)
        (Nat.mul-add-div_right (omega arith) (b / alignment) 2 ∙ (omega arith))

  module _ {h : Headers} where
    past :
        {n p r : ℕ}
        → Root alignment h n p r
        → is_scc alignment h p ≡ true
        → (k : ℕ) × (n ≡ suc k) × Root alignment h k (get_scc alignment (h p)) r
    past (is_root r e) t = cc
    past (points o n r e rest) t = (n, refl, rest)

    stays : {n p r : ℕ} → Root alignment h n p r → is_scc alignment h p ≡ false → p ≡ r
    stays (is_root r e) f = refl
    stays (points o n r e rest) f = cc

    ends : {n p r : ℕ} → Root alignment h n p r → is_scc alignment h r ≡ false
    ends (is_root r e) = e
    ends (points o n r e rest) = ends rest

    apart :
        {n p r : ℕ} (curr : ℕ)
        → Root alignment h n p r
        → is_scc alignment h curr ≡ true
        → (r == curr) ≡ false
    apart curr root c = ==_ne _ _ (λ e. cc (ends root, ap (is_scc alignment h) e, c))

  -- A round of the loop: `curr` and its parent are no roots.
  module _ (h : Headers) (curr : ℕ) (curr_scc : is_scc alignment h curr ≡ true)
      (parent_scc : is_scc alignment h (get_scc alignment (h curr)) ≡ true) where
    abbrev parent : ℕ
    parent = get_scc alignment (h curr)

    abbrev after : Headers
    after = store h curr (set_scc alignment (get_scc alignment (h parent)))

    after_at :
        (x : ℕ) → (x == curr) ≡ true → after x ≡ set_scc alignment (get_scc alignment (h parent))
    after_at x e = rw e refl

    after_other : (x : ℕ) → (x == curr) ≡ false → after x ≡ h x
    after_other x e = rw e refl

    after-is_scc : (x : ℕ) → is_scc alignment after x ≡ is_scc alignment h x
    after-is_scc x = elim (Bool-cases (x == curr)) [
      | inl e ↦
          ap (λ b. get_class alignment b == scc_ptr) (after_at x e)
          ∙ ap (λ c. c == scc_ptr) (class-set (h parent))
          ∙ sym curr_scc
          ∙ ap (λ y. is_scc alignment h y) (sym (eq_of_== x curr e))
      | inr e ↦ ap (λ b. get_class alignment b == scc_ptr) (after_other x e)
    ]

    after_at_scc :
        (x : ℕ) → (x == curr) ≡ true → get_scc alignment (after x) ≡ get_scc alignment (h parent)
    after_at_scc x e = ap (get_scc alignment) (after_at x e) ∙ scc-set (h parent)

    after-parent : get_scc alignment (after parent) ≡ get_scc alignment (h parent)
    after-parent = elim (Bool-cases (parent == curr)) [
      | inl e ↦ after_at_scc parent e
      | inr e ↦ ap (get_scc alignment) (after_other parent e)
    ]

    -- The way from `curr` over its parent, and what the rest of it becomes.
    around :
        {k r : ℕ} (x : ℕ)
        → (x == curr) ≡ true
        → Root alignment h k (get_scc alignment (h x)) r
        → (j : ℕ) × (k ≡ suc j) × Root alignment h j (get_scc alignment (h parent)) r
    around {k} {r} x e rest =
        past (subst (λ y. Root alignment h k (get_scc alignment (h y)) r) (eq_of_== x curr e) rest)
          parent_scc

    abbrev Shorter : ℕ → ℕ → ℕ → Type 0
    Shorter m x r = (m' : ℕ) × (m' ≤ m) × Root alignment after m' x r

    prepend :
        {k r : ℕ} (x p : ℕ)
        → is_scc alignment h x ≡ true
        → get_scc alignment (after x) ≡ p
        → Shorter k p r
        → Shorter (suc k) x r
    prepend {k} {r} x p t e (m', le, root) = (
      suc m',
      omega arith,
      points x m' r (after-is_scc x ∙ t) (subst (λ y. Root alignment after m' y r) (sym e) root),
    )

    weaken : {j k : ℕ} (x r : ℕ) → j ≤ k → Shorter j x r → Shorter k x r
    weaken x r le (m', low, root) = (m', omega arith, root)

    further :
        (k x r : ℕ)
        → ((j y : ℕ) → j ≤ k → Root alignment h j y r → Shorter j y r)
        → is_scc alignment h x ≡ true
        → Root alignment h k (get_scc alignment (h x)) r
        → Shorter (suc k) x r
    further k x r ih t rest = elim (Bool-cases (x == curr)) [
      | inr e ↦ prepend x _ t (ap (get_scc alignment) (after_other x e)) (ih k _ (omega arith) rest)
      | inl e ↦
          let (j, same, rest') = around x e rest in
          weaken x r (omega arith) (prepend x _ t (after_at_scc x e) (ih j _ (omega arith) rest'))
    ]

    -- No way to a root becomes longer.
    shorter : (bound m x r : ℕ) → m < bound → Root alignment h m x r → Shorter m x r
    shorter zero m x r low root = absurd (omega arith)
    shorter (suc bound) m x r low root = elim (Bool-cases (is_scc alignment h x)) [
      | inr f ↦ (
        0,
        omega arith,
        subst (λ y. Root alignment after 0 x y) (stays root f) (is_root x (after-is_scc x ∙ f)),
      )
      | inl t ↦
          let (k, e, rest) = past root t in
          weaken x r (omega arith)
            (further k x r (λ j y le way. shorter bound j y r (omega arith) way) t rest)
    ]

  -- The result of a run that found the root `r`, and what is left of a way of `m` steps.
  abbrev Found : Headers → ℕ → ℕ → ℕ → ℕ → Option (ℕ × ℕ × Headers) → Type 0
  Found h r m x s run =
      (h' : Headers) × (run ≡ some (r, get_class alignment (h r), h'))
      × (m' : ℕ) × (m' ≤ m)
      × Root alignment h' m' x s

  halve-Found :
      (fuel : ℕ) (h : Headers) (curr n r m x s : ℕ)
      → is_scc alignment h curr ≡ true
      → Root alignment h n (get_scc alignment (h curr)) r
      → n < fuel
      → Root alignment h m x s
      → Found h r m x s (halve alignment fuel h curr (get_scc alignment (h curr)))
  unfolding halve
  halve-Found zero h curr n r m x s c root low way = absurd (omega arith)
  halve-Found (suc fuel) h curr n r m x s c root low way =
      elim (Bool-cases (is_scc alignment h (get_scc alignment (h curr)))) [
        | inr f ↦ rw f (
          h,
          ap (λ y. some (y, get_class alignment (h y), h)) (stays root f),
          m,
          omega arith,
          way,
        )
        | inl t ↦
            let (k, e, rest) = past root t in
            let h₁ = after h curr c t in
            let (k', shorter_k, rest') = shorter h curr c t (suc k) k _ r (omega arith) rest in
            let (m', shorter_m, way') = shorter h curr c t (suc m) m x s (omega arith) way in
            let next = after-parent h curr c t in
            let (h', run, m'', le, found) =
              halve-Found fuel h₁ (get_scc alignment (h curr)) k' r m' x s
                (after-is_scc h curr c t _ ∙ t)
                (subst (λ p. Root alignment h₁ k' p r) (sym next) rest') (omega arith) way' in
            rw t (
              h',
              ap (halve alignment fuel h₁ (get_scc alignment (h curr))) (sym next)
                  ∙ run
                  ∙ ap (λ b. some (r, get_class alignment b, h'))
                      (after_other h curr c t r (apart curr root c)),
              m'',
              omega arith,
              found,
            )
      ]

  -- Where the pointers of `o` lead to the root `r` in `n` steps, and `n` rounds and one more are
  -- allowed, `root_and_class` returns `r` and its class; and whatever root an object had before, it has
  -- afterwards, in no more steps.
  pub root_and_class-Found :
      (fuel : ℕ) (h : Headers) (n o r m x s : ℕ)
      → Root alignment h n o r
      → n < fuel
      → Root alignment h m x s
      → (h' : Headers) × (root_and_class alignment fuel h o
          ≡ some (r, get_class alignment (h r), h'))
        × (m' : ℕ) × (m' ≤ m)
        × Root alignment h' m' x s
  unfolding root_and_class
  root_and_class-Found fuel h n o r m x s root low way = elim (Bool-cases (is_scc alignment h o)) [
    | inr f ↦
        rw f
          (h, ap (λ y. some (y, get_class alignment (h y), h)) (stays root f), m, omega arith, way)
    | inl t ↦
        let (k, e, rest) = past root t in
        rw t (halve-Found fuel h o k r m x s t rest (omega arith) way)
  ]
