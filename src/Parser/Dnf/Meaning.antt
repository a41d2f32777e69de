-- ===== src/Parser/Dnf/Meaning.antt =====
-- What a type says: which values a computation may return and which it may throw. This is the
-- independent description that the functions of src/parser/dnf.cc are checked against.
use verona.Prelude.{ℕ, ◌≡◌, refl, Bool, true, false, ◌&&◌, ◌||◌, Option, none, some, arith}
use verona.Parser.Dnf.Types.{
  TypeNode, throw_type, union_type, isect_type, other, TypeNodes, nil, cons, append,
}
use verona.Parser.Dnf.Combine.{add_if}

pub data Outcome : Type 0 where
  returned : ℕ → Outcome
  thrown : ℕ → Outcome

-- The values of the other types.
abbrev pub Values : Type 0
Values = ℕ → ℕ → Bool

unfoldable mutual
  pub holds : Values → TypeNode → Outcome → Bool
  holds val (throw_type l t) (returned v) = false
  holds val (throw_type l t) (thrown v) = holds val t (returned v)
  holds val (union_type l ts) o = any_holds val ts o
  holds val (isect_type l ts) o = every_holds val ts o
  holds val (other l k) (returned v) = val k v
  holds val (other l k) (thrown v) = false

  pub any_holds : Values → TypeNodes → Outcome → Bool
  any_holds val nil o = false
  any_holds val (cons t ts) o = holds val t o || any_holds val ts o

  pub every_holds : Values → TypeNodes → Outcome → Bool
  every_holds val nil o = true
  every_holds val (cons t ts) o = holds val t o && every_holds val ts o

-- No node: no outcome.
abbrev pub holds_node : Values → Option TypeNode → Outcome → Bool
holds_node val none o = false
holds_node val (some t) o = holds val t o

abbrev pub is_cons : TypeNodes → Bool
is_cons nil = false
is_cons (cons t ts) = true

-- Types that throw nothing and have no union in them.
unfoldable mutual
  pub flat : TypeNode → Bool
  flat (throw_type l t) = false
  flat (union_type l ts) = false
  flat (isect_type l ts) = is_cons ts && all_flat ts
  flat (other l k) = true

  pub all_flat : TypeNodes → Bool
  all_flat nil = true
  all_flat (cons t ts) = flat t && all_flat ts

unfoldable pub elem : TypeNode → Bool
unfolding flat
elem (throw_type l t) = flat t
elem t = flat t

unfoldable pub all_elem : TypeNodes → Bool
unfolding elem
all_elem nil = true
all_elem (cons t ts) = elem t && all_elem ts

-- Disjunctive normal form: a union of flat types and of throws of flat types, or one of them.
unfoldable pub dnf : TypeNode → Bool
unfolding all_elem
dnf (union_type l ts) = all_elem ts
dnf t = elem t

abbrev pub dnf_node : Option TypeNode → Bool
dnf_node none = true
dnf_node (some t) = dnf t

abbrev pub elem_node : Option TypeNode → Bool
elem_node none = true
elem_node (some t) = elem t

pub all_flat-append : (ts us : TypeNodes) → all_flat (append ts us) ≡ (all_flat ts && all_flat us)
unfolding all_flat append
all_flat-append nil us = refl
all_flat-append (cons t ts) us = ground (arith, all_flat-append ts us)

pub all_elem-append : (ts us : TypeNodes) → all_elem (append ts us) ≡ (all_elem ts && all_elem us)
unfolding all_elem append
all_elem-append nil us = refl
all_elem-append (cons t ts) us = ground (arith, all_elem-append ts us)

pub is_cons-append : (ts us : TypeNodes) → is_cons ts ≡ true → is_cons (append ts us) ≡ true
unfolding append
is_cons-append nil us h = cc
is_cons-append (cons t ts) us h = refl

module _ (val : Values) (o : Outcome) where
  pub every-append :
      (ts us : TypeNodes)
      → every_holds val (append ts us) o ≡ (every_holds val ts o && every_holds val us o)
  unfolding holds append
  every-append nil us = refl
  every-append (cons t ts) us = ground (arith, every-append ts us)

  pub any-append :
      (ts us : TypeNodes)
      → any_holds val (append ts us) o ≡ (any_holds val ts o || any_holds val us o)
  unfolding holds append
  any-append nil us = refl
  any-append (cons t ts) us = ground (arith, any-append ts us)

  pub any-add_if :
      (c : Option TypeNode) (ts : TypeNodes)
      → any_holds val (add_if c ts) o ≡ (holds_node val c o || any_holds val ts o)
  unfolding holds add_if
  any-add_if none ts = refl
  any-add_if (some t) ts = refl

pub all_elem-add_if :
    (c : Option TypeNode) (ts : TypeNodes)
    → elem_node c ≡ true
    → all_elem ts ≡ true
    → all_elem (add_if c ts) ≡ true
unfolding all_elem add_if
all_elem-add_if none ts h k = k
all_elem-add_if (some t) ts h k = ground arith

-- A flat type throws nothing.
mutual
  unfolding flat holds

  flat_thrown :
      (val : Values) (t : TypeNode) (v : ℕ) → flat t ≡ true → holds val t (thrown v) ≡ false
  flat_thrown val (throw_type l t) v h = cc
  flat_thrown val (union_type l ts) v h = cc
  flat_thrown val (isect_type l ts) v h = all_flat_thrown val ts v h
  flat_thrown val (other l k) v h = refl

  all_flat_thrown :
      (val : Values) (ts : TypeNodes) (v : ℕ)
      → (is_cons ts && all_flat ts) ≡ true
      → every_holds val ts (thrown v) ≡ false
  all_flat_thrown val nil v h = cc
  all_flat_thrown val (cons t ts) v h = ground (arith, flat_thrown val t v)

pub holds-thrown :
    (val : Values) (t : TypeNode) (v : ℕ) → flat t ≡ true → holds val t (thrown v) ≡ false
holds-thrown = flat_thrown
