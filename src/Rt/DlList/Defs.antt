-- ===== src/Rt/DlList/Defs.antt =====
-- The class `DLList` of src/rt/ds/dllist.h, whose terminator is the null pointer. An element is its
-- address, 0 is null, and `prev` and `next` are the fields of those names of the elements.
use verona.Prelude.{
  List, [], ◌∷◌, ℕ, zero, suc, Bool, true, false, ◌==◌, if◌then◌else◌, Option, none, some, update,
}

pub record DlList : Type 0 where
  pub head : ℕ
  pub tail : ℕ
  pub prev : ℕ → ℕ
  pub next : ℕ → ℕ

unfoldable pub is_empty : DlList → Bool
is_empty d = d.head == 0

-- The first and the second test of `remove`.
unfoldable pub unlink_next : ℕ → DlList → DlList
unlink_next x d =
    if d.next x == 0
    then record d { tail = d.prev x }
    else record d { prev = update d.prev (d.next x) (d.prev x) }

unfoldable pub unlink_prev : ℕ → DlList → DlList
unlink_prev x d =
    if d.prev x == 0
    then record d { head = d.next x }
    else record d { next = update d.next (d.prev x) (d.next x) }

unfoldable pub remove : ℕ → DlList → DlList
unfolding unlink_next unlink_prev
remove x d = unlink_prev x (unlink_next x d)

unfoldable pub pop : DlList → ℕ × DlList
pop d = (d.head, if d.head == 0 then d else remove d.head d)

unfoldable pub pop_tail : DlList → ℕ × DlList
pop_tail d = (d.tail, if d.tail == 0 then d else remove d.tail d)

unfoldable pub insert : ℕ → DlList → DlList
insert x d =
    if d.head == 0
    then record d { head = x; tail = x; next = update d.next x d.head; prev = update d.prev x 0 }
    else record d {
      head = x;
      next = update d.next x d.head;
      prev = update (update d.prev x 0) d.head x;
    }

unfoldable pub insert_back : ℕ → DlList → DlList
insert_back x d =
    if d.tail == 0
    then record d { head = x; tail = x; prev = update d.prev x d.tail; next = update d.next x 0 }
    else record d {
      tail = x;
      prev = update d.prev x d.tail;
      next = update (update d.next x 0) d.tail x;
    }

-- `delete` of an element, whose fields may hold anything from then on.
unfoldable pub delete_item : (ℕ → ℕ) → ℕ → DlList → DlList
delete_item junk x d = record d { prev = update d.prev x (junk x); next = update d.next x (junk x) }

abbrev pub deleted_first : Bool → ℕ → Option (List ℕ × DlList) → Option (List ℕ × DlList)
deleted_first delete_on_clear x none = none
deleted_first delete_on_clear x (some (l, d)) = some (if delete_on_clear then x ∷ l else l, d)

-- The loop of `clear`, with fuel: the elements that it deletes, and the list.
unfoldable pub clear : Bool → (ℕ → ℕ) → ℕ → DlList → Option (List ℕ × DlList)
unfolding delete_item
clear delete_on_clear junk zero d = none
clear delete_on_clear junk (suc fuel) d =
    let removed = remove d.head d in
    let after = if delete_on_clear then delete_item junk d.head removed else removed in
    let rest = deleted_first delete_on_clear d.head (clear delete_on_clear junk fuel after) in
    if d.head == 0 then some ([], d) else rest

-- The list that is made of another by a move, and the other one, which is left empty. The assignment
-- drops the elements of its own list.
unfoldable pub move_from : DlList → DlList × DlList
move_from o = (o, record o { head = 0; tail = 0 })

-- The checks of debug builds: `false` where an assertion fails, with fuel for their loops. The
-- loop of `debug_check` is at `item`, behind `q`.
unfoldable pub check_links : ℕ → DlList → ℕ → ℕ → Option Bool
check_links zero d item q = none
check_links (suc fuel) d item q =
    let rest = check_links fuel d (d.next item) item in
    if item == 0 then some true else if d.prev item == q then rest else some false

unfoldable pub debug_check : ℕ → DlList → Option Bool
unfolding check_links
debug_check fuel d = check_links fuel d d.head 0

-- The loops of `debug_check_contains` and `debug_check_not_contains` are at `curr`.
unfoldable pub find_item : ℕ → DlList → ℕ → ℕ → Option Bool
find_item zero d item curr = none
find_item (suc fuel) d item curr =
    let rest = find_item fuel d item (d.next curr) in
    if curr == item then some true else if curr == 0 then some false else rest

unfoldable pub miss_item : ℕ → DlList → ℕ → ℕ → Option Bool
miss_item zero d item curr = none
miss_item (suc fuel) d item curr =
    let rest = miss_item fuel d item (d.next curr) in
    if curr == 0 then some true else if curr == item then some false else rest

-- The second check of a function, if the first one ends and passes.
unfoldable pub and_then : Option Bool → Option Bool → Option Bool
and_then none c = none
and_then (some false) c = some false
and_then (some true) c = c

unfoldable pub debug_check_contains : ℕ → ℕ → DlList → Option Bool
unfolding debug_check find_item and_then
debug_check_contains fuel item d = and_then (debug_check fuel d) (find_item fuel d item d.head)

unfoldable pub debug_check_not_contains : ℕ → ℕ → DlList → Option Bool
unfolding debug_check miss_item and_then
debug_check_not_contains fuel item d = and_then (debug_check fuel d) (miss_item fuel d item d.head)

-- The checks that `insert`, `insert_back` and `remove` make before and after their work.
unfoldable pub insert_checks : ℕ → ℕ → DlList → Option Bool
unfolding debug_check_not_contains
insert_checks fuel item d =
    and_then (debug_check_not_contains fuel item d) (debug_check fuel (insert item d))

unfoldable pub insert_back_checks : ℕ → ℕ → DlList → Option Bool
unfolding debug_check_not_contains
insert_back_checks fuel item d =
    and_then (debug_check_not_contains fuel item d) (debug_check fuel (insert_back item d))

unfoldable pub remove_checks : ℕ → ℕ → DlList → Option Bool
unfolding debug_check_contains
remove_checks fuel item d =
    and_then (debug_check_contains fuel item d) (debug_check fuel (remove item d))
