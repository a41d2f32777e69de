-- ===== src/Parser/Dnf/Combine.antt =====
-- `conjunction`, `disjunction` and `throwtype` of src/parser/dnf.cc. A null node is `none`.
use verona.Prelude.{ℕ, zero, suc, ◌+◌, Option, none, some}
use verona.Parser.Dnf.Types.{
  Location, range, TypeNode, throw_type, union_type, isect_type, other, TypeNodes, nil, cons,
  location, append, push_back, size,
}

-- The recursion of `conjunction` is on fuel.
pub data Run (A : Type 0) : Type 0 where
  out_of_fuel : Run A
  done : A → Run A

infixl 5 ◌>>=◌
abbrev pub ◌>>=◌ : {A B : Type 0} → Run A → (A → Run B) → Run B
out_of_fuel >>= f = out_of_fuel
done a >>= f = f a

unfoldable pub single_single : TypeNode → TypeNode → TypeNode
single_single left right =
    isect_type (range (location left) (location right)) (cons left (cons right nil))

-- Both are throw types; `a` and `b` are what they throw.
unfoldable pub throws_throws : (left right a b : TypeNode) → TypeNode
throws_throws left right a b =
    let loc = range (location left) (location right) in
    throw_type loc (isect_type loc (cons a (cons b nil)))

-- `left` is an intersection of `ts`.
unfoldable pub isect_single : TypeNode → TypeNodes → TypeNode → TypeNode
isect_single left ts right =
    isect_type (range (location left) (location right)) (push_back ts right)

unfoldable pub isect_isect : (left right : TypeNode) → TypeNodes → TypeNodes → TypeNode
isect_isect left right ts us = isect_type (range (location left) (location right)) (append ts us)

-- A union without members is no node.
unfoldable pub nonempty_union : Location → TypeNodes → Option TypeNode
nonempty_union loc nil = none
nonempty_union loc (cons t ts) = some (union_type loc (cons t ts))

abbrev pub Conjunction : Type 0
Conjunction = Option TypeNode → Option TypeNode → Run (Option TypeNode)

unfoldable pub add_if : Option TypeNode → TypeNodes → TypeNodes
add_if none ts = ts
add_if (some t) ts = cons t ts

-- The loop of `union_other`, and the inner loop of `union_union` with its arguments the other way.
unfoldable pub each_left : Conjunction → TypeNodes → TypeNode → Run TypeNodes
unfolding add_if
each_left conj nil right = done nil
each_left conj (cons t ts) right = do
  c ← conj (some t) (some right)
  rest ← each_left conj ts right
  done (add_if c rest)

unfoldable pub each_right : Conjunction → TypeNode → TypeNodes → Run TypeNodes
unfolding add_if
each_right conj left nil = done nil
each_right conj left (cons t ts) = do
  c ← conj (some left) (some t)
  rest ← each_right conj left ts
  done (add_if c rest)

unfoldable pub each_pair : Conjunction → TypeNodes → TypeNodes → Run TypeNodes
unfolding each_right
each_pair conj nil us = done nil
each_pair conj (cons t ts) us = do
  row ← each_right conj t us
  rest ← each_pair conj ts us
  done (append row rest)

-- `left` is a union of `ts`.
unfoldable pub union_other : Conjunction → TypeNode → TypeNodes → TypeNode → Run (Option TypeNode)
unfolding each_left nonempty_union
union_other conj left ts right = do
  members ← each_left conj ts right
  done (nonempty_union (range (location left) (location right)) members)

unfoldable pub union_union :
    Conjunction → (left right : TypeNode) → TypeNodes → TypeNodes → Run (Option TypeNode)
unfolding each_pair nonempty_union
union_union conj left right ts us = do
  members ← each_pair conj ts us
  done (nonempty_union (range (location left) (location right)) members)

-- The `switch` of `conjunction` on the two kinds.
unfoldable pub by_kind : Conjunction → TypeNode → TypeNode → Run (Option TypeNode)
unfolding isect_isect isect_single throws_throws single_single union_other union_union
by_kind conj (isect_type l ts) (isect_type m us) =
    done (some (isect_isect (isect_type l ts) (isect_type m us) ts us))
by_kind conj (isect_type l ts) (throw_type m u) = done none
by_kind conj (isect_type l ts) (union_type m us) =
    union_other conj (union_type m us) us (isect_type l ts)
by_kind conj (isect_type l ts) (other m k) =
    done (some (isect_single (isect_type l ts) ts (other m k)))
by_kind conj (throw_type l t) (throw_type m u) =
    done (some (throws_throws (throw_type l t) (throw_type m u) t u))
by_kind conj (throw_type l t) (union_type m us) =
    union_other conj (union_type m us) us (throw_type l t)
by_kind conj (throw_type l t) (isect_type m us) = done none
by_kind conj (throw_type l t) (other m k) = done none
by_kind conj (union_type l ts) (union_type m us) =
    union_union conj (union_type l ts) (union_type m us) ts us
by_kind conj (union_type l ts) (throw_type m u) =
    union_other conj (union_type l ts) ts (throw_type m u)
by_kind conj (union_type l ts) (isect_type m us) =
    union_other conj (union_type l ts) ts (isect_type m us)
by_kind conj (union_type l ts) (other m k) = union_other conj (union_type l ts) ts (other m k)
by_kind conj (other l k) (isect_type m us) =
    done (some (isect_single (isect_type m us) us (other l k)))
by_kind conj (other l k) (throw_type m u) = done none
by_kind conj (other l k) (union_type m us) = union_other conj (union_type m us) us (other l k)
by_kind conj (other l k) (other m j) = done (some (single_single (other l k) (other m j)))

unfoldable pub conjunction_fuel : ℕ → Conjunction
unfolding by_kind
conjunction_fuel zero left right = out_of_fuel
conjunction_fuel (suc n) none right = done right
conjunction_fuel (suc n) (some left) none = done (some left)
conjunction_fuel (suc n) (some left) (some right) = by_kind (conjunction_fuel n) left right

-- Every call is on a smaller pair.
abbrev pub size_of : Option TypeNode → ℕ
size_of none = 1
size_of (some t) = size t

unfoldable pub conjunction : Conjunction
unfolding conjunction_fuel size
conjunction left right = conjunction_fuel (suc (size_of left + size_of right)) left right

abbrev pub throw_each_member : TypeNode → TypeNode
throw_each_member (throw_type l t) = throw_type l t
throw_each_member t = throw_type (location t) t

unfoldable pub throw_each : TypeNodes → TypeNodes
throw_each nil = nil
throw_each (cons t ts) = cons (throw_each_member t) (throw_each ts)

unfoldable pub throwtype : Option TypeNode → Option TypeNode
unfolding throw_each
throwtype none = none
throwtype (some (union_type l ts)) = some (union_type l (throw_each ts))
throwtype (some (throw_type l t)) = some (throw_type l t)
throwtype (some t) = some (throw_type (location t) t)

-- The members that a node brings into a union.
unfoldable pub members : TypeNode → TypeNodes
members (union_type l ts) = ts
members t = cons t nil

unfoldable pub disjunction : Option TypeNode → Option TypeNode → Option TypeNode
unfolding members
disjunction none right = right
disjunction (some left) none = some left
disjunction (some left) (some right) =
    some
      (union_type (range (location left) (location right)) (append (members left) (members right)))
