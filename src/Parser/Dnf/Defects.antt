-- ===== src/Parser/Dnf/Defects.antt =====
-- Where `conjunction` of src/parser/dnf.cc misses the normal form or the meaning.
use verona.Prelude.{◌+◌, ◌≡◌, refl, sym, true, false, ◌&&◌, none, some}
use verona.Parser.Dnf.Types.{
  Location, range, TypeNode, throw_type, union_type, isect_type, other, nil, cons, size, wellformed,
  no_union_throw_isect,
}
use verona.Parser.Dnf.Combine.{done, ◌>>=◌, Conjunction, by_kind, conjunction, conjunction_fuel}
use verona.Parser.Dnf.Meaning.{Outcome, Values, holds, flat}
use verona.Parser.Dnf.Elements.{flat-and-throw}

-- `conjunction` of two nodes makes one step of its recursion.
conjunction-by_kind :
    (t u : TypeNode) → (conj : Conjunction) × (conjunction (some t) (some u) ≡ by_kind conj t u)
unfolding conjunction conjunction_fuel
conjunction-by_kind t u = (conjunction_fuel (size t + size u), refl)

-- The conjunction of two throw types is a throw type of an intersection.
throw-throw :
    (l m : Location) (a b : TypeNode)
    → conjunction (some (throw_type l a)) (some (throw_type m b))
      ≡ done (some (throw_type (range l m) (isect_type (range l m) (cons a (cons b nil)))))
unfolding by_kind
throw-throw l m a b = let (conj, e) = conjunction-by_kind (throw_type l a) (throw_type m b) in rw e

-- The conjunction of three throw types, taken from the left as the parser does, never passes the
-- check of `wellformed`: its intersection has an intersection for a member.
pub three_throws_not_wellformed :
    (l m n : Location) (a b c : TypeNode)
    → (r : TypeNode) × ((conjunction (some (throw_type l a)) (some (throw_type m b)) >>= λ ab.
          conjunction ab (some (throw_type n c)))
        ≡ done (some r))
      × (wellformed r ≡ false)
unfolding wellformed no_union_throw_isect
three_throws_not_wellformed l m n a b c =
    let ab = isect_type (range l m) (cons a (cons b nil)) in
    let abc = isect_type (range (range l m) n) (cons ab (cons c nil)) in
    (
      throw_type (range (range l m) n) abc,
      rw (throw-throw l m a b, throw-throw (range l m) n ab c),
      refl,
    )

flat-throw :
    (t u : TypeNode) (m : Location)
    → flat t ≡ true
    → conjunction (some t) (some (throw_type m u)) ≡ done none
unfolding by_kind flat
flat-throw (throw_type l t) u m h = cc
flat-throw (union_type l ts) u m h = cc
flat-throw (isect_type l ts) u m h =
    let (conj, e) = conjunction-by_kind (isect_type l ts) (throw_type m u) in rw e
flat-throw (other l k) u m h =
    let (conj, e) = conjunction-by_kind (other l k) (throw_type m u) in rw e

-- For a type `t` that throws nothing and has no union, no outcome belongs to `t` and to a throw type,
-- yet the conjunction of `t`, the throw type and any third type `c`, taken from the left as the
-- parser does, is `c`: the empty conjunction is a null node, which the next call takes for an
-- absent operand.
pub empty_conjunction_is_forgotten :
    (t u c : TypeNode) (m : Location)
    → flat t ≡ true
    → ((val : Values) (o : Outcome) → (holds val t o && holds val (throw_type m u) o) ≡ false)
      × ((conjunction (some t) (some (throw_type m u)) >>= λ tu. conjunction tu (some c))
          ≡ done (some c))
unfolding conjunction conjunction_fuel
empty_conjunction_is_forgotten t u c m h =
    (λ val o. sym (flat-and-throw val t u m o h), rw (flat-throw t u m h))
