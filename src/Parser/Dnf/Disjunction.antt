-- ===== src/Parser/Dnf/Disjunction.antt =====
-- `disjunction` and `throwtype`.
use verona.Prelude.{ℕ, ◌≡◌, refl, true, false, ◌&&◌, ◌||◌, some, arith}
use verona.Parser.Dnf.Types.{
  TypeNode, throw_type, union_type, isect_type, other, TypeNodes, nil, cons, append, no_union,
  wellformed, all_wellformed,
}
use verona.Parser.Dnf.Combine.{disjunction, members, throwtype, throw_each}
use verona.Parser.Dnf.Meaning.{
  Outcome, returned, thrown, Values, holds, any_holds, holds_node, all_elem, dnf, dnf_node,
  all_elem-append, any-append, holds-thrown,
}

members-holds :
    (val : Values) (t : TypeNode) (o : Outcome) → any_holds val (members t) o ≡ holds val t o
unfolding members holds
members-holds val (union_type l ts) o = refl
members-holds val (throw_type l t) o = ground arith
members-holds val (isect_type l ts) o = ground arith
members-holds val (other l k) o = ground arith

members-elem : (t : TypeNode) → all_elem (members t) ≡ dnf t
unfolding members all_elem dnf
members-elem (union_type l ts) = refl
members-elem (throw_type l t) = ground arith
members-elem (isect_type l ts) = ground arith
members-elem (other l k) = ground arith

-- An outcome belongs to the disjunction of two types just when it belongs to one of them, and the
-- disjunction of two types in disjunctive normal form is in disjunctive normal form.
pub disjunction-holds :
    (left right : TypeNode)
    → ((val : Values) (o : Outcome)
        → holds_node val (disjunction (some left) (some right)) o
          ≡ (holds val left o || holds val right o))
      × (dnf_node (disjunction (some left) (some right)) ≡ (dnf left && dnf right))
unfolding disjunction holds dnf
disjunction-holds left right = (
  λ val o. ground (
    arith,
    any-append val o (members left) (members right),
    members-holds val left o,
    members-holds val right o,
  ),
  ground (
    arith,
    all_elem-append (members left) (members right),
    members-elem left,
    members-elem right,
  ),
)

no_union-append : (ts us : TypeNodes) → no_union (append ts us) ≡ (no_union ts && no_union us)
unfolding no_union append
no_union-append nil us = refl
no_union-append (cons t ts) us = ground (arith, no_union-append ts us)

all_wellformed-append :
    (ts us : TypeNodes) → all_wellformed (append ts us) ≡ (all_wellformed ts && all_wellformed us)
unfolding wellformed append
all_wellformed-append nil us = refl
all_wellformed-append (cons t ts) us = ground (arith, all_wellformed-append ts us)

members-wellformed :
    (t : TypeNode) → (no_union (members t) && all_wellformed (members t)) ≡ wellformed t
unfolding members wellformed no_union
members-wellformed (union_type l ts) = refl
members-wellformed (throw_type l t) = ground arith
members-wellformed (isect_type l ts) = ground arith
members-wellformed (other l k) = ground arith

-- The disjunction passes the check of `wellformed` just when both operands do.
pub disjunction-wellformed :
    (left right : TypeNode) {u : TypeNode}
    → disjunction (some left) (some right) ≡ some u
    → wellformed u ≡ (wellformed left && wellformed right)
unfolding disjunction wellformed
disjunction-wellformed left right h = ground (
  arith,
  no_union-append (members left) (members right),
  all_wellformed-append (members left) (members right),
  members-wellformed left,
  members-wellformed right,
)

throw_each-elem : (ts : TypeNodes) → all_elem ts ≡ true → all_elem (throw_each ts) ≡ true
unfolding throw_each all_elem
throw_each-elem nil h = refl
throw_each-elem (cons (throw_type l t) ts) h = ground (arith, throw_each-elem ts)
throw_each-elem (cons (union_type l us) ts) h = cc
throw_each-elem (cons (isect_type l us) ts) h = ground (arith, throw_each-elem ts)
throw_each-elem (cons (other l k) ts) h = ground (arith, throw_each-elem ts)

throw_each-holds :
    (val : Values) (ts : TypeNodes) (v : ℕ)
    → all_elem ts ≡ true
    → (any_holds val (throw_each ts) (returned v) ≡ false)
      × (any_holds val (throw_each ts) (thrown v)
          ≡ (any_holds val ts (returned v) || any_holds val ts (thrown v)))
unfolding throw_each all_elem holds
throw_each-holds val nil v h = (refl, refl)
throw_each-holds val (cons (throw_type l t) ts) v h = ground (arith, throw_each-holds val ts v)
throw_each-holds val (cons (union_type l us) ts) v h = cc
throw_each-holds val (cons (isect_type l us) ts) v h =
    ground (arith, throw_each-holds val ts v, holds-thrown val (isect_type l us) v)
throw_each-holds val (cons (other l k) ts) v h = ground (arith, throw_each-holds val ts v)

-- `throwtype` of a type in disjunctive normal form is one too, returns nothing, and throws just what
-- the type returns or throws.
pub throwtype-Rethrown :
    (t : TypeNode)
    → dnf t ≡ true
    → (dnf_node (throwtype (some t)) ≡ true)
      × ((val : Values) (v : ℕ)
          → (holds_node val (throwtype (some t)) (returned v) ≡ false)
            × (holds_node val (throwtype (some t)) (thrown v)
                ≡ (holds val t (returned v) || holds val t (thrown v))))
unfolding throwtype dnf holds
throwtype-Rethrown (throw_type l t) h = (h, λ val v. ground arith)
throwtype-Rethrown (union_type l ts) h =
    (throw_each-elem ts h, λ val v. throw_each-holds val ts v h)
throwtype-Rethrown (isect_type l ts) h =
    (h, λ val v. ground (arith, holds-thrown val (isect_type l ts) v h))
throwtype-Rethrown (other l k) h = (refl, λ val v. ground arith)
