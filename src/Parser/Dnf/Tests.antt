-- ===== src/Parser/Dnf/Tests.antt =====
-- Types at which the functions of src/parser/dnf.cc are run, and the theorems there.
use verona.Prelude.{ℕ, ◌≡◌, refl, true, false, ◌&&◌, ◌||◌, none, some, ◌==◌}
use verona.Parser.Dnf.Types.{
  Location, range, TypeNode, throw_type, union_type, isect_type, other, nil, cons, wellformed,
  append,
}
use verona.Parser.Dnf.Combine.{done, ◌>>=◌, conjunction, disjunction, throwtype}
use verona.Parser.Dnf.Meaning.{
  Outcome, returned, thrown, Values, holds, holds_node, flat, dnf, dnf_node,
}
use verona.Parser.Dnf.Elements.{Returns}
use verona.Parser.Dnf.Conjunction.{Conjoins, conjunction-Conjoins}
use verona.Parser.Dnf.Total.{Ends, conjunction-Ends}
use verona.Parser.Dnf.Disjunction.{disjunction-holds, throwtype-Rethrown}
use verona.Parser.Dnf.Defects.{three_throws_not_wellformed, empty_conjunction_is_forgotten}

abbrev at : ℕ → ℕ → Location
at a b = record { source = 0; start = a; end = b }

abbrev a : TypeNode
a = other (at 0 0) 1

abbrev b : TypeNode
b = other (at 4 4) 2

abbrev c : TypeNode
c = other (at 8 8) 3

-- `A | B`
abbrev a_or_b : TypeNode
a_or_b = union_type (at 0 4) (cons a (cons b nil))

-- `throw C`
abbrev throw_c : TypeNode
throw_c = throw_type (at 8 8) c

-- `B | throw C`
abbrev b_or_throw : TypeNode
b_or_throw = union_type (at 4 8) (cons b (cons throw_c nil))

distributed :
    conjunction (some a_or_b) (some b_or_throw)
    ≡ done (
        some (
          union_type (at 0 8) (
            cons
              (isect_type (at 0 4) (cons a (cons b nil)))
              (cons (isect_type (at 4 4) (cons b (cons b nil))) nil))))
unfolding conjunction range append
distributed = refl

conjunction-Conjoins_example :
    Returns
      (Conjoins (λ k v. k == v) a_or_b b_or_throw)
      (conjunction (some a_or_b) (some b_or_throw))
unfolding dnf
conjunction-Conjoins_example = conjunction-Conjoins (λ k v. k == v) a_or_b b_or_throw refl refl

conjunction-Ends_example : Ends (conjunction (some throw_c) none)
conjunction-Ends_example = conjunction-Ends (some throw_c) none

disjunction-holds_example :
    ((val : Values) (o : Outcome)
      → holds_node val (disjunction (some a_or_b) (some throw_c)) o
        ≡ (holds val a_or_b o || holds val throw_c o))
    × (dnf_node (disjunction (some a_or_b) (some throw_c)) ≡ (dnf a_or_b && dnf throw_c))
disjunction-holds_example = disjunction-holds a_or_b throw_c

throwtype-Rethrown_example :
    (dnf_node (throwtype (some b_or_throw)) ≡ true)
    × ((val : Values) (v : ℕ)
        → (holds_node val (throwtype (some b_or_throw)) (returned v) ≡ false)
          × (holds_node val (throwtype (some b_or_throw)) (thrown v)
              ≡ (holds val b_or_throw (returned v) || holds val b_or_throw (thrown v))))
unfolding dnf
throwtype-Rethrown_example = throwtype-Rethrown b_or_throw refl

three_throws_not_wellformed_example :
    (r : TypeNode) × ((conjunction (some (throw_type (at 0 0) a)) (some (throw_type (at 4 4) b))
        >>= λ ab. conjunction ab (some (throw_type (at 8 8) c)))
      ≡ done (some r))
    × (wellformed r ≡ false)
three_throws_not_wellformed_example = three_throws_not_wellformed (at 0 0) (at 4 4) (at 8 8) a b c

empty_conjunction_is_forgotten_example :
    ((val : Values) (o : Outcome) → (holds val a o && holds val (throw_type (at 4 4) b) o) ≡ false)
    × ((conjunction (some a) (some (throw_type (at 4 4) b)) >>= λ ab. conjunction ab (some c))
        ≡ done (some c))
unfolding flat
empty_conjunction_is_forgotten_example = empty_conjunction_is_forgotten a b c (at 4 4) refl
