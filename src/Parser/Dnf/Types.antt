-- ===== src/Parser/Dnf/Types.antt =====
-- The type nodes that src/parser/dnf.cc tells apart (src/parser/ast.h), and source locations
-- (src/parser/source.h). A node of any other kind is an `other`, with a number for what it is.
use Prim.Native.Nat.{min, max}
use verona.Prelude.{ℕ, suc, ◌+◌, Bool, true, false, ◌&&◌, not}

pub record Location : Type 0 where
  pub source : ℕ
  pub start : ℕ
  pub end : ℕ

unfoldable pub range : Location → Location → Location
range a b = record { source = a.source; start = min a.start b.start; end = max a.end b.end }

mutual
  pub data TypeNode : Type 0 where
    throw_type : Location → TypeNode → TypeNode
    union_type : Location → TypeNodes → TypeNode
    isect_type : Location → TypeNodes → TypeNode
    other : Location → ℕ → TypeNode

  pub data TypeNodes : Type 0 where
    nil : TypeNodes
    cons : TypeNode → TypeNodes → TypeNodes

abbrev pub location : TypeNode → Location
location (throw_type l t) = l
location (union_type l ts) = l
location (isect_type l ts) = l
location (other l k) = l

-- `insert` at the end of a vector; `push_back` adds one node.
unfoldable pub append : TypeNodes → TypeNodes → TypeNodes
append nil us = us
append (cons t ts) us = cons t (append ts us)

abbrev pub push_back : TypeNodes → TypeNode → TypeNodes
push_back ts t = append ts (cons t nil)

unfoldable mutual
  pub size : TypeNode → ℕ
  size (throw_type l t) = suc (size t)
  size (union_type l ts) = suc (sizes ts)
  size (isect_type l ts) = suc (sizes ts)
  size (other l k) = 1

  pub sizes : TypeNodes → ℕ
  sizes nil = 0
  sizes (cons t ts) = size t + sizes ts

abbrev pub is_union : TypeNode → Bool
is_union (union_type l ts) = true
is_union _ = false

abbrev pub is_throw : TypeNode → Bool
is_throw (throw_type l t) = true
is_throw _ = false

abbrev pub is_isect : TypeNode → Bool
is_isect (isect_type l ts) = true
is_isect _ = false

-- What `pre` checks at a union's and at an intersection's members.
unfoldable pub no_union : TypeNodes → Bool
no_union nil = true
no_union (cons t ts) = not (is_union t) && no_union ts

unfoldable pub no_union_throw_isect : TypeNodes → Bool
no_union_throw_isect nil = true
no_union_throw_isect (cons t ts) =
    not (is_union t) && not (is_throw t) && not (is_isect t) && no_union_throw_isect ts

-- The pass `WF`: whether no node of the tree is reported.
unfoldable mutual
  unfolding no_union no_union_throw_isect

  pub wellformed : TypeNode → Bool
  wellformed (throw_type l t) = not (is_union t) && not (is_throw t) && wellformed t
  wellformed (union_type l ts) = no_union ts && all_wellformed ts
  wellformed (isect_type l ts) = no_union_throw_isect ts && all_wellformed ts
  wellformed (other l k) = true

  pub all_wellformed : TypeNodes → Bool
  all_wellformed nil = true
  all_wellformed (cons t ts) = wellformed t && all_wellformed ts
