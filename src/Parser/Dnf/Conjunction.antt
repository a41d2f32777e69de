-- ===== src/Parser/Dnf/Conjunction.antt =====
-- `conjunction` at types in disjunctive normal form.
use verona.Prelude.{
  ℕ, zero, suc, ◌+◌, ◌≤◌, ◌≡◌, refl, ◌∙◌, Bool, true, ◌&&◌, Option, none, some, arith,
}
use verona.Parser.Dnf.Types.{
  Location, TypeNode, throw_type, union_type, isect_type, other, TypeNodes, nil, cons, size,
}
use verona.Parser.Dnf.Combine.{
  Run, out_of_fuel, done, ◌>>=◌, Conjunction, by_kind, each_left, each_right, each_pair,
  nonempty_union, union_other, union_union, conjunction_fuel, conjunction,
}
use verona.Parser.Dnf.Meaning.{
  Outcome, Values, holds, any_holds, holds_node, elem, all_elem, dnf, dnf_node, flat,
  all_elem-append, any-append, any-add_if, all_elem-add_if,
}
use verona.Parser.Dnf.Elements.{Returns, Meets, by_kind-Meets, and_comm}

pub Returns-bind :
    {A B : Type 0} (P : A → Type 0) (Q : B → Type 0) (m : Run A) (f : A → Run B)
    → Returns P m
    → ((a : A) → P a → Returns Q (f a))
    → Returns Q (m >>= f)
Returns-bind P Q out_of_fuel f h k = h
Returns-bind P Q (done a) f h k = k a h

pub Returns-mono :
    {A : Type 0} (P Q : A → Type 0) (m : Run A) → Returns P m → ((a : A) → P a → Q a) → Returns Q m
Returns-mono P Q out_of_fuel h k = h
Returns-mono P Q (done a) h k = k a h

module _ (val : Values) where
  abbrev MeetsAll : (Outcome → Bool) → (Outcome → Bool) → TypeNodes → Type 0
  MeetsAll p q ms = (all_elem ms ≡ true) × ((o : Outcome) → any_holds val ms o ≡ (p o && q o))

  -- What is asked of the recursive calls.
  abbrev OnElements : Conjunction → Type 0
  OnElements conj =
      (t u : TypeNode)
      → elem t ≡ true
      → elem u ≡ true
      → Returns (Meets val t u) (conj (some t) (some u))

  each_left-MeetsAll :
      (conj : Conjunction) (ts : TypeNodes) (right : TypeNode)
      → OnElements conj
      → all_elem ts ≡ true
      → elem right ≡ true
      → Returns (MeetsAll (any_holds val ts) (holds val right)) (each_left conj ts right)
  unfolding each_left all_elem holds
  each_left-MeetsAll conj nil right ih a b = (refl, λ o. refl)
  each_left-MeetsAll conj (cons t ts) right ih a b =
      let here = ih t right (ground arith) b in
      let rest = each_left-MeetsAll conj ts right ih (ground arith) b in
      Returns-bind _ _ (conj (some t) (some right)) _ here λ c (ce, ch).
        Returns-bind _ _ (each_left conj ts right) _ rest λ ms (me, mh).
          (all_elem-add_if c ms ce me, λ o. ground (arith, any-add_if val o c ms, ch o, mh o))

  each_right-MeetsAll :
      (conj : Conjunction) (left : TypeNode) (us : TypeNodes)
      → OnElements conj
      → elem left ≡ true
      → all_elem us ≡ true
      → Returns (MeetsAll (holds val left) (any_holds val us)) (each_right conj left us)
  unfolding each_right all_elem holds
  each_right-MeetsAll conj left nil ih a b = (refl, λ o. ground arith)
  each_right-MeetsAll conj left (cons u us) ih a b =
      let here = ih left u a (ground arith) in
      let rest = each_right-MeetsAll conj left us ih a (ground arith) in
      Returns-bind _ _ (conj (some left) (some u)) _ here λ c (ce, ch).
        Returns-bind _ _ (each_right conj left us) _ rest λ ms (me, mh).
          (all_elem-add_if c ms ce me, λ o. ground (arith, any-add_if val o c ms, ch o, mh o))

  each_pair-MeetsAll :
      (conj : Conjunction) (ts us : TypeNodes)
      → OnElements conj
      → all_elem ts ≡ true
      → all_elem us ≡ true
      → Returns (MeetsAll (any_holds val ts) (any_holds val us)) (each_pair conj ts us)
  unfolding each_pair all_elem holds
  each_pair-MeetsAll conj nil us ih a b = (refl, λ o. refl)
  each_pair-MeetsAll conj (cons t ts) us ih a b =
      let row = each_right-MeetsAll conj t us ih (ground arith) b in
      let rest = each_pair-MeetsAll conj ts us ih (ground arith) b in
      Returns-bind _ _ (each_right conj t us) _ row λ ms (me, mh).
        Returns-bind _ _ (each_pair conj ts us) _ rest λ ns (ne, nh). (
          ground (arith, all_elem-append ms ns),
          λ o. ground (arith, any-append val o ms ns, mh o, nh o),
        )

  -- The result is in normal form and says what both operands say.
  abbrev pub Conjoins : TypeNode → TypeNode → Option TypeNode → Type 0
  Conjoins left right c =
      (dnf_node c ≡ true)
      × ((o : Outcome) → holds_node val c o ≡ (holds val left o && holds val right o))

  nonempty_union-dnf :
      (loc : Location) (ms : TypeNodes) → dnf_node (nonempty_union loc ms) ≡ all_elem ms
  unfolding nonempty_union dnf
  nonempty_union-dnf loc nil = refl
  nonempty_union-dnf loc (cons t ts) = refl

  nonempty_union-holds :
      (loc : Location) (ms : TypeNodes) (o : Outcome)
      → holds_node val (nonempty_union loc ms) o ≡ any_holds val ms o
  unfolding nonempty_union holds
  nonempty_union-holds loc nil o = refl
  nonempty_union-holds loc (cons t ts) o = refl

  union_other-Conjoins :
      (conj : Conjunction) (l : Location) (ts : TypeNodes) (right : TypeNode)
      → OnElements conj
      → all_elem ts ≡ true
      → elem right ≡ true
      → Returns (Conjoins (union_type l ts) right) (union_other conj (union_type l ts) ts right)
  unfolding union_other holds
  union_other-Conjoins conj l ts right ih a b =
      Returns-bind _ _ (each_left conj ts right) _ (each_left-MeetsAll conj ts right ih a b)
        λ ms (me, mh). (nonempty_union-dnf _ ms ∙ me, λ o. nonempty_union-holds _ ms o ∙ mh o)

  Conjoins-swap :
      (left right : TypeNode) (c : Option TypeNode) → Conjoins right left c → Conjoins left right c
  Conjoins-swap left right c (d, h) =
      (d, λ o. h o ∙ and_comm (holds val right o) (holds val left o))

  elem-dnf : (t : TypeNode) → elem t ≡ true → dnf t ≡ true
  unfolding dnf elem flat
  elem-dnf (throw_type l t) h = h
  elem-dnf (union_type l ts) h = cc
  elem-dnf (isect_type l ts) h = h
  elem-dnf (other l k) h = h

  Meets-Conjoins :
      (left right : TypeNode) (c : Option TypeNode) → Meets val left right c → Conjoins left right c
  Meets-Conjoins left right none (e, h) = (refl, h)
  Meets-Conjoins left right (some t) (e, h) = (elem-dnf t e, h)

  by_kind-Conjoins :
      (conj : Conjunction) (left right : TypeNode)
      → OnElements conj
      → dnf left ≡ true
      → dnf right ≡ true
      → Returns (Conjoins left right) (by_kind conj left right)
  unfolding by_kind union_other union_union dnf holds
  by_kind-Conjoins conj (union_type l ts) (union_type m us) ih a b =
      Returns-bind _ _ (each_pair conj ts us) _ (each_pair-MeetsAll conj ts us ih a b)
        λ ms (me, mh). (nonempty_union-dnf _ ms ∙ me, λ o. nonempty_union-holds _ ms o ∙ mh o)
  by_kind-Conjoins conj (union_type l ts) (throw_type m u) ih a b =
      union_other-Conjoins conj l ts _ ih a b
  by_kind-Conjoins conj (union_type l ts) (isect_type m us) ih a b =
      union_other-Conjoins conj l ts _ ih a b
  by_kind-Conjoins conj (union_type l ts) (other m k) ih a b =
      union_other-Conjoins conj l ts _ ih a b
  by_kind-Conjoins conj left (union_type m us) ih a b =
      Returns-mono _ _ (union_other conj (union_type m us) us left)
        (union_other-Conjoins conj m us left ih b a) (Conjoins-swap left (union_type m us))
  by_kind-Conjoins conj left right ih a b =
      Returns-mono _ _ (by_kind conj left right) (by_kind-Meets val conj left right a b)
        (Meets-Conjoins left right)

  conjunction_fuel-Conjoins :
      (k : ℕ) (left right : TypeNode)
      → 2 ≤ k
      → dnf left ≡ true
      → dnf right ≡ true
      → Returns (Conjoins left right) (conjunction_fuel k (some left) (some right))
  unfolding conjunction_fuel
  conjunction_fuel-Conjoins zero left right h a b = absurd (omega arith)
  conjunction_fuel-Conjoins (suc zero) left right h a b = absurd (omega arith)
  conjunction_fuel-Conjoins (suc (suc k)) left right h a b =
      by_kind-Conjoins (conjunction_fuel (suc k)) left right
        (by_kind-Meets val (conjunction_fuel k)) a b

  size_pos : (t : TypeNode) → 1 ≤ size t
  unfolding size
  size_pos (throw_type l t) = omega arith
  size_pos (union_type l ts) = omega arith
  size_pos (isect_type l ts) = omega arith
  size_pos (other l k) = omega arith

  -- At two types in disjunctive normal form `conjunction` ends; its result, where it is a node, is in
  -- disjunctive normal form; and an outcome belongs to the result just when it belongs to both
  -- types, where no node means that no outcome does.
  pub conjunction-Conjoins :
      (left right : TypeNode)
      → dnf left ≡ true
      → dnf right ≡ true
      → Returns (Conjoins left right) (conjunction (some left) (some right))
  unfolding conjunction
  conjunction-Conjoins left right a b =
      conjunction_fuel-Conjoins (suc (size left + size right)) left right
        (omega (arith, size_pos left, size_pos right)) a b
