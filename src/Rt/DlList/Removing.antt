-- ===== src/Rt/DlList/Removing.antt =====
-- What `remove` leaves is a doubly linked list of the other elements.
use verona.Prelude.{
  ℕ, ◌≡◌, ◌≢◌, ◌++◌, sym, refl, ◌∙◌, List, [], ◌∷◌, update, update_other, All, All-append, All-map,
  ==_ne, subst,
}
use verona.Rt.DlList.Defs.{DlList, unlink_next, unlink_prev, remove}
use verona.Rt.DlList.Segment.{
  Seg, Apart, Seg-prev, Seg-next, Seg-split, Seg-join, Seg-last, Seg-relink_first, Seg-relink_last,
}

abbrev pub Linked : DlList → List ℕ → Type 0
Linked d l = Seg d.prev d.next 0 l d.head 0 d.tail

-- The list holds these elements, none of which is null or there twice.
abbrev pub Holds : DlList → List ℕ → Type 0
Holds d l = Linked d l × All (λ y. y ≢ 0) l × Apart l

abbrev pub IsNew : ℕ → List ℕ → Type 0
IsNew x l = (x ≢ 0) × All (λ y. y ≢ x) l

-- The elements of one list are none of those of the other.
abbrev pub Disjoint : List ℕ → List ℕ → Type 0
Disjoint xs ys = All (λ a. All (λ b. b ≢ a) ys) xs

pub All-split : (P : ℕ → Type 0) (xs ys : List ℕ) → All P (xs ++ ys) → All P xs × All P ys
All-split P [] ys h = (tt, h)
All-split P (x ∷ xs) ys h = let k = All-split P xs ys h.1 in ((h.0, k.0), k.1)

pub Apart-split : (xs ys : List ℕ) → Apart (xs ++ ys) → Apart xs × Apart ys × Disjoint xs ys
Apart-split [] ys a = (tt, a, tt)
Apart-split (x ∷ xs) ys a =
    let k = Apart-split xs ys a.1 in
    let h = All-split (λ y. y ≢ x) xs ys a.0 in ((h.0, k.0), k.1, (h.1, k.2))

pub Apart-join : (xs ys : List ℕ) → Apart xs → Apart ys → Disjoint xs ys → Apart (xs ++ ys)
Apart-join [] ys a b c = b
Apart-join (x ∷ xs) ys a b c = (All-append (λ y. y ≢ x) xs ys a.0 c.0, Apart-join xs ys a.1 b c.1)

-- The two sides of `x`, the one behind it being linked to `q`.
abbrev Cut : DlList → List ℕ → ℕ → ℕ → ℕ → List ℕ → Type 0
Cut d xs p x q ys =
    (d.prev x ≡ p) × Seg d.prev d.next 0 xs d.head x p × Seg d.prev d.next q ys (d.next x) 0 d.tail

unlink_next-Cut :
    (d : DlList) (xs : List ℕ) (p x : ℕ) (ys : List ℕ)
    → All (λ y. y ≢ 0) ys
    → Apart (x ∷ ys)
    → Disjoint xs (x ∷ ys)
    → Cut d xs p x x ys
    → Cut (unlink_next x d) xs p x p ys
unfolding unlink_next
unlink_next-Cut d xs p x [] z a c (e, s, k) =
    let d' : DlList = record d { tail = p } in
    let eq : unlink_next x d ≡ d' = rw (k.0, e) refl in
    subst (λ c. Cut c xs p x p []) (sym eq) (e, s, (k.0, refl))
unlink_next-Cut d xs p x (y ∷ l) z a c (e, s, k) =
    let d' : DlList = record d { prev = update d.prev y p } in
    let eq : unlink_next x d ≡ d' = rw (k.0, ==_ne y 0 z.0, e) refl in
    subst (λ c. Cut c xs p x p (y ∷ l)) (sym eq)
      (
        update_other d.prev y p x (λ e'. a.0.0 (sym e')) ∙ e,
        Seg-prev d.prev d.next y p 0 xs d.head x p (All-map (λ b h e'. h.1.0 (sym e')) xs c) s,
        Seg-relink_first d.prev d.next x p y l (d.next x) 0 d.tail a.1 k,
      )

unlink_prev-Holds :
    (d : DlList) (xs : List ℕ) (p x : ℕ) (ys : List ℕ)
    → All (λ y. y ≢ 0) xs
    → Apart xs
    → Disjoint xs ys
    → Cut d xs p x p ys
    → Linked (unlink_prev x d) (xs ++ ys)
unfolding unlink_prev
unlink_prev-Holds d [] p x ys z a c (e, s, k) =
    let d' : DlList = record d { head = d.next x } in
    let eq : unlink_prev x d ≡ d' = rw (e, s.1) refl in
    subst (λ c. Linked c ys) (sym eq)
      (subst (λ q. Seg d.prev d.next q ys (d.next x) 0 d.tail) s.1 k)
unlink_prev-Holds d (y ∷ xs) p x ys z a c (e, s, k) =
    let n = d.next x in
    let ne : p ≢ 0 = Seg-last (λ b. b ≢ 0) d.prev d.next 0 y xs d.head x p s z in
    let f = Seg-last (λ b. All (λ b'. b' ≢ b) ys) d.prev d.next 0 y xs d.head x p s c in
    let d' : DlList = record d { next = update d.next p n } in
    let eq : unlink_prev x d ≡ d' = rw (e, ==_ne p 0 ne) refl in
    subst (λ c. Linked c (y ∷ xs ++ ys)) (sym eq)
      (Seg-join d.prev (update d.next p n) 0 (y ∷ xs) ys d.head n p 0 d.tail
        (Seg-relink_last d.prev d.next 0 y xs d.head x n p a s)
        (Seg-next d.prev d.next p n p ys n 0 d.tail f k))

pub remove-Holds :
    (d : DlList) (xs : List ℕ) (x : ℕ) (ys : List ℕ)
    → Holds d (xs ++ x ∷ ys)
    → Holds (remove x d) (xs ++ ys)
unfolding remove
remove-Holds d xs x ys (s, z, a) =
    let k = Seg-split d.prev d.next 0 xs x ys d.head 0 d.tail s in
    let zs = All-split (λ y. y ≢ 0) xs (x ∷ ys) z in
    let (ax, ay, c) = Apart-split xs (x ∷ ys) a in
    let c' = All-map (λ b h. h.1) xs c in
    let cut = unlink_next-Cut d xs (d.prev x) x ys zs.1.1 ay c (refl, k.0, k.1) in
    (
      unlink_prev-Holds (unlink_next x d) xs (d.prev x) x ys zs.0 ax c' cut,
      All-append (λ y. y ≢ 0) xs ys zs.0 zs.1.1,
      Apart-join xs ys ax ay.1 c',
    )
