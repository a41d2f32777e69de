-- ===== src/Parser/Dnf/Total.antt =====
-- The fuel of `conjunction` is enough for all operands.
use verona.Prelude.{ℕ, zero, suc, ◌+◌, ◌<◌, Option, none, some, arith}
use verona.Parser.Dnf.Types.{
  TypeNode, throw_type, union_type, isect_type, other, TypeNodes, nil, cons, size, sizes,
}
use verona.Parser.Dnf.Combine.{
  Run, Conjunction, by_kind, each_left, each_right, each_pair, union_other, union_union,
  conjunction_fuel, conjunction,
}
use verona.Parser.Dnf.Elements.{Returns}
use verona.Parser.Dnf.Conjunction.{Returns-bind}

abbrev pub Ends : {A : Type 0} → Run A → Type 0
Ends = Returns (λ _. Unit {0})

-- Calls on pairs smaller than `n` end.
abbrev EndsBelow : ℕ → Conjunction → Type 0
EndsBelow n conj = (t u : TypeNode) → size t + size u < n → Ends (conj (some t) (some u))

module _ (n : ℕ) (conj : Conjunction) (ih : EndsBelow n conj) where
  each_left-Ends :
      (ts : TypeNodes) (right : TypeNode)
      → sizes ts + size right < n
      → Ends (each_left conj ts right)
  unfolding each_left size
  each_left-Ends nil right h = tt
  each_left-Ends (cons t ts) right h =
      Returns-bind _ _ (conj (some t) (some right)) _ (ih t right (omega arith)) λ c _.
        Returns-bind _ _ (each_left conj ts right) _ (each_left-Ends ts right (omega arith))
          λ _ _. tt

  each_right-Ends :
      (left : TypeNode) (us : TypeNodes) → size left + sizes us < n → Ends (each_right conj left us)
  unfolding each_right size
  each_right-Ends left nil h = tt
  each_right-Ends left (cons u us) h =
      Returns-bind _ _ (conj (some left) (some u)) _ (ih left u (omega arith)) λ c _.
        Returns-bind _ _ (each_right conj left us) _ (each_right-Ends left us (omega arith))
          λ _ _. tt

  each_pair-Ends : (ts us : TypeNodes) → sizes ts + sizes us < n → Ends (each_pair conj ts us)
  unfolding each_pair size
  each_pair-Ends nil us h = tt
  each_pair-Ends (cons t ts) us h =
      Returns-bind _ _ (each_right conj t us) _ (each_right-Ends t us (omega arith)) λ c _.
        Returns-bind _ _ (each_pair conj ts us) _ (each_pair-Ends ts us (omega arith)) λ _ _. tt

  union_other-Ends :
      (left right : TypeNode) (ts : TypeNodes)
      → sizes ts + size right < n
      → Ends (union_other conj left ts right)
  unfolding union_other
  union_other-Ends left right ts h =
      Returns-bind _ _ (each_left conj ts right) _ (each_left-Ends ts right h) λ _ _. tt

  by_kind-Ends :
      (left right : TypeNode) → size left + size right < suc n → Ends (by_kind conj left right)
  unfolding by_kind union_union size
  by_kind-Ends (union_type l ts) (union_type m us) h =
      Returns-bind _ _ (each_pair conj ts us) _ (each_pair-Ends ts us (omega arith)) λ _ _. tt
  by_kind-Ends (union_type l ts) (throw_type m u) h =
      union_other-Ends (union_type l ts) (throw_type m u) ts (omega arith)
  by_kind-Ends (union_type l ts) (isect_type m us) h =
      union_other-Ends (union_type l ts) (isect_type m us) ts (omega arith)
  by_kind-Ends (union_type l ts) (other m k) h =
      union_other-Ends (union_type l ts) (other m k) ts (omega arith)
  by_kind-Ends left (union_type m us) h = union_other-Ends (union_type m us) left us (omega arith)
  by_kind-Ends left right h = tt

conjunction_fuel-Ends :
    (n : ℕ) (t u : TypeNode) → size t + size u < n → Ends (conjunction_fuel n (some t) (some u))
unfolding conjunction_fuel
conjunction_fuel-Ends zero t u h = absurd (omega arith)
conjunction_fuel-Ends (suc n) t u h =
    by_kind-Ends n (conjunction_fuel n) (conjunction_fuel-Ends n) t u h

-- `conjunction` ends at all operands, null nodes and types that are in no normal form included.
pub conjunction-Ends : (left right : Option TypeNode) → Ends (conjunction left right)
unfolding conjunction conjunction_fuel
conjunction-Ends none right = tt
conjunction-Ends (some t) none = tt
conjunction-Ends (some t) (some u) = conjunction_fuel-Ends (suc (size t + size u)) t u (omega arith)
