-- ===== src/Parser/Dnf/Elements.antt =====
-- `conjunction` at two types that are no unions.
use verona.Prelude.{◌≡◌, refl, ◌∙◌, Bool, true, false, ◌&&◌, Option, arith}
use verona.Parser.Dnf.Types.{
  Location, range, TypeNode, throw_type, union_type, isect_type, other, TypeNodes, nil, cons,
  push_back,
}
use verona.Parser.Dnf.Combine.{Run, out_of_fuel, done, Conjunction, by_kind}
use verona.Parser.Dnf.Meaning.{
  Outcome, returned, thrown, Values, holds, every_holds, holds_node, flat, elem, elem_node,
  all_flat-append, is_cons-append, every-append, holds-thrown,
}

pub and_comm : (a b : Bool) → (a && b) ≡ (b && a)
and_comm a b = ground arith

-- A run that ends, with a result that has the property.
abbrev pub Returns : {A : Type 0} → (A → Type 0) → Run A → Type 0
Returns P out_of_fuel = ⊥
Returns P (done a) = P a

module _ (val : Values) where
  -- The result says what both operands say, and is no union.
  abbrev pub Meets : TypeNode → TypeNode → Option TypeNode → Type 0
  Meets left right c =
      (elem_node c ≡ true)
      × ((o : Outcome) → holds_node val c o ≡ (holds val left o && holds val right o))

  pub flat-and-throw :
      (t u : TypeNode) (m : Location) (o : Outcome)
      → flat t ≡ true
      → false ≡ (holds val t o && holds val (throw_type m u) o)
  unfolding holds
  flat-and-throw t u m (returned v) h = ground arith
  flat-and-throw t u m (thrown v) h = ground (arith, holds-thrown val t v h)

  throw-and-flat :
      (t u : TypeNode) (m : Location) (o : Outcome)
      → flat t ≡ true
      → false ≡ (holds val (throw_type m u) o && holds val t o)
  unfolding holds
  throw-and-flat t u m (returned v) h = refl
  throw-and-flat t u m (thrown v) h = ground (arith, holds-thrown val t v h)

  throw-and-throw :
      (t u : TypeNode) (l m n k : Location) (o : Outcome)
      → holds val (throw_type n (isect_type k (cons t (cons u nil)))) o
        ≡ (holds val (throw_type l t) o && holds val (throw_type m u) o)
  unfolding holds
  throw-and-throw t u l m n k (returned v) = refl
  throw-and-throw t u l m n k (thrown v) = ground arith

  -- A node put behind the members of an intersection.
  every-push_back :
      (ts : TypeNodes) (t : TypeNode) (o : Outcome)
      → every_holds val (push_back ts t) o ≡ (every_holds val ts o && holds val t o)
  unfolding holds
  every-push_back ts t o = ground (arith, every-append val o ts (cons t nil))

  pub by_kind-Meets :
      (conj : Conjunction) (left right : TypeNode)
      → elem left ≡ true
      → elem right ≡ true
      → Returns (Meets left right) (by_kind conj left right)
  unfolding by_kind elem holds
  by_kind-Meets conj (isect_type l ts) (isect_type m us) a b =
      (ground (arith, all_flat-append ts us, is_cons-append ts us), λ o. every-append val o ts us)
  by_kind-Meets conj (isect_type l ts) (throw_type m u) a b =
      (refl, λ o. flat-and-throw (isect_type l ts) u m o a)
  by_kind-Meets conj (isect_type l ts) (other m k) a b = (
    ground (
      arith,
      all_flat-append ts (cons (other m k) nil),
      is_cons-append ts (cons (other m k) nil),
    ),
    λ o. every-push_back ts (other m k) o,
  )
  by_kind-Meets conj (throw_type l t) (throw_type m u) a b =
      (ground arith, λ o. throw-and-throw t u l m (range l m) (range l m) o)
  by_kind-Meets conj (throw_type l t) (isect_type m us) a b =
      (refl, λ o. throw-and-flat (isect_type m us) t l o b)
  by_kind-Meets conj (throw_type l t) (other m k) a b =
      (refl, λ o. throw-and-flat (other m k) t l o refl)
  by_kind-Meets conj (other l k) (isect_type m us) a b = (
    ground (
      arith,
      all_flat-append us (cons (other l k) nil),
      is_cons-append us (cons (other l k) nil),
    ),
    λ o.
        every-push_back us (other l k) o
        ∙ and_comm (every_holds val us o) (holds val (other l k) o),
  )
  by_kind-Meets conj (other l k) (throw_type m u) a b =
      (refl, λ o. flat-and-throw (other l k) u m o refl)
  by_kind-Meets conj (other l k) (other m j) a b = (refl, λ o. ground arith)
  by_kind-Meets conj (union_type l ts) right a b = cc
  by_kind-Meets conj left (union_type m us) a b = cc
