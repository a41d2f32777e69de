-- ===== src/Rt/DlList/Checks.antt =====
-- The assertions of debug builds of src/rt/ds/dllist.h.
use verona.Prelude.{
  ℕ, zero, suc, ◌<◌, ◌≡◌, ◌≢◌, ◌++◌, ap, refl, List, [], ◌∷◌, some, true, length, All, ==_self,
  ==_ne, arith, ◌==◌, Bool-cases, inl, inr,
}
use verona.Rt.DlList.Defs.{
  DlList, insert, insert_back, remove, check_links, debug_check, find_item, miss_item,
  debug_check_contains, debug_check_not_contains, insert_checks, insert_back_checks, remove_checks,
  and_then,
}
use verona.Rt.DlList.Segment.{Seg}
use verona.Rt.DlList.Removing.{Holds, IsNew, remove-Holds}
use verona.Rt.DlList.Keeps.{insert-Holds, insert_back-Holds}

check_links-passes :
    (fuel : ℕ) (d : DlList) (p : ℕ) (l : List ℕ) (h t : ℕ)
    → All (λ y. y ≢ 0) l
    → Seg d.prev d.next p l h 0 t
    → length l < fuel
    → check_links fuel d h p ≡ some true
unfolding check_links
check_links-passes zero d p l h t z s lt = absurd (omega arith)
check_links-passes (suc fuel) d p [] h t z s lt = rw (s.0) refl
check_links-passes (suc fuel) d p (x ∷ l) h t z s lt =
    rw (s.0, ==_ne x 0 z.0, s.1, ==_self p)
      (check_links-passes fuel d x l (d.next x) t z.1 s.2 (omega arith))

find_item-passes :
    (fuel : ℕ) (d : DlList) (item p : ℕ) (xs ys : List ℕ) (h t : ℕ)
    → All (λ y. y ≢ 0) (xs ++ item ∷ ys)
    → Seg d.prev d.next p (xs ++ item ∷ ys) h 0 t
    → length xs < fuel
    → find_item fuel d item h ≡ some true
unfolding find_item
find_item-passes zero d item p xs ys h t z s lt = absurd (omega arith)
find_item-passes (suc fuel) d item p [] ys h t z s lt = rw (s.0, ==_self item) refl
find_item-passes (suc fuel) d item p (x ∷ xs) ys h t z s lt =
    let rest = find_item-passes fuel d item x xs ys (d.next x) t z.1 s.2 (omega arith) in
    elim (Bool-cases (x == item)) [
      | inl e ↦ rw (s.0, e) refl
      | inr ne ↦ rw (s.0, ne, ==_ne x 0 z.0) rest
    ]

miss_item-passes :
    (fuel : ℕ) (d : DlList) (item p : ℕ) (l : List ℕ) (h t : ℕ)
    → All (λ y. y ≢ 0) l
    → All (λ y. y ≢ item) l
    → Seg d.prev d.next p l h 0 t
    → length l < fuel
    → miss_item fuel d item h ≡ some true
unfolding miss_item
miss_item-passes zero d item p l h t z k s lt = absurd (omega arith)
miss_item-passes (suc fuel) d item p [] h t z k s lt = rw (s.0) refl
miss_item-passes (suc fuel) d item p (x ∷ l) h t z k s lt =
    rw (s.0, ==_ne x 0 z.0, ==_ne x item k.0)
      (miss_item-passes fuel d item x l (d.next x) t z.1 k.1 s.2 (omega arith))

-- The list keeps what `debug_check` asserts, a round of its loop for each element being enough.
pub debug_check-passes :
    (fuel : ℕ) (d : DlList) (l : List ℕ)
    → Holds d l
    → length l < fuel
    → debug_check fuel d ≡ some true
unfolding debug_check
debug_check-passes fuel d l h lt = check_links-passes fuel d 0 l d.head d.tail h.1 h.0 lt

length-insert : (x : ℕ) (l : List ℕ) → length (l ++ x ∷ []) ≡ suc (length l)
length-insert x [] = refl
length-insert x (y ∷ l) = ap suc (length-insert x l)

length-around :
    (x : ℕ) (xs ys : List ℕ)
    → (length (xs ++ x ∷ ys) ≡ suc (length (xs ++ ys))) × (length xs < length (xs ++ x ∷ ys))
length-around x [] ys = (refl, omega arith)
length-around x (y ∷ xs) ys = let k = length-around x xs ys in (ap suc k.0, omega (arith, k.1))

-- Where an element is added that is neither null nor in the list, no check of `insert` fails.
pub insert_checks-pass :
    (fuel x : ℕ) (d : DlList) (l : List ℕ)
    → IsNew x l
    → Holds d l
    → suc (length l) < fuel
    → insert_checks fuel x d ≡ some true
unfolding insert_checks debug_check_not_contains and_then
insert_checks-pass fuel x d l new h lt =
    rw
      (
        debug_check-passes fuel d l h (omega arith),
        miss_item-passes fuel d x 0 l d.head d.tail h.1 new.1 h.0 (omega arith),
      )
      (debug_check-passes fuel (insert x d) (x ∷ l) (insert-Holds x d l new h) lt)

pub insert_back_checks-pass :
    (fuel x : ℕ) (d : DlList) (l : List ℕ)
    → IsNew x l
    → Holds d l
    → suc (length l) < fuel
    → insert_back_checks fuel x d ≡ some true
unfolding insert_back_checks debug_check_not_contains and_then
insert_back_checks-pass fuel x d l new h lt =
    let n = length-insert x l in
    rw
      (
        debug_check-passes fuel d l h (omega arith),
        miss_item-passes fuel d x 0 l d.head d.tail h.1 new.1 h.0 (omega arith),
      )
      (debug_check-passes fuel (insert_back x d) (l ++ x ∷ []) (insert_back-Holds x d l new h)
        (omega (arith, n)))

-- Where an element of the list is removed, no check of `remove` fails.
pub remove_checks-pass :
    (fuel : ℕ) (d : DlList) (xs : List ℕ) (x : ℕ) (ys : List ℕ)
    → Holds d (xs ++ x ∷ ys)
    → length (xs ++ x ∷ ys) < fuel
    → remove_checks fuel x d ≡ some true
unfolding remove_checks debug_check_contains and_then
remove_checks-pass fuel d xs x ys h lt =
    let n = length-around x xs ys in
    rw
      (
        debug_check-passes fuel d (xs ++ x ∷ ys) h lt,
        find_item-passes fuel d x 0 xs ys d.head d.tail h.1 h.0 (omega (arith, n.1)),
      )
      (debug_check-passes fuel (remove x d) (xs ++ ys) (remove-Holds d xs x ys h)
        (omega (arith, n.0)))
