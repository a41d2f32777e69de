-- ===== src/Rt/DlList/Keeps.antt =====
-- The insertions and removals at the ends keep the list one, of the elements that are expected.
use verona.Prelude.{
  All, ap, if◌then◌else◌, true, Bool, Option, ℕ, zero, suc, ◌<◌, ◌≡◌, ◌≢◌, ◌++◌, sym, refl, ◌∙◌,
  List, [], ◌∷◌, ◌==◌, false, some, length, update, update_same, update_other, All-append, All-map,
  ==_ne, subst, arith,
}
use verona.Rt.DlList.Defs.{
  DlList, remove, pop, pop_tail, insert, insert_back, delete_item, deleted_first, clear, move_from,
}
use verona.Rt.DlList.Segment.{
  Seg-prev, Seg-next, Seg-split, Seg-join, Seg-last, Seg-relink_first, Seg-relink_last,
}
use verona.Rt.DlList.Removing.{Holds, IsNew, All-split, Apart-join, remove-Holds}

pub insert-Holds :
    (x : ℕ) (d : DlList) (l : List ℕ) → IsNew x l → Holds d l → Holds (insert x d) (x ∷ l)
unfolding insert
insert-Holds x d [] new (s, z, a) =
    let d' : DlList = record d {
      head = x;
      tail = x;
      next = update d.next x 0;
      prev = update d.prev x 0;
    } in
    let eq : insert x d ≡ d' = rw (s.0) refl in
    subst (λ c. Holds c (x ∷ [])) (sym eq)
      ((refl, update_same d.prev x 0, (update_same d.next x 0, refl)), (new.0, tt), (tt, tt))
insert-Holds x d (y ∷ l) new (s, z, a) =
    let n = update d.next x y in
    let p = update d.prev x 0 in
    let d' : DlList = record d { head = x; next = n; prev = update p y x } in
    let eq : insert x d ≡ d' = rw (s.0, ==_ne y 0 z.0) refl in
    let s₁ = Seg-next d.prev d.next x y 0 (y ∷ l) d.head 0 d.tail new.1 s in
    let s₂ = Seg-prev d.prev n x 0 0 (y ∷ l) d.head 0 d.tail new.1 s₁ in
    let s₃ = Seg-relink_first p n 0 x y l d.head 0 d.tail a s₂ in
    subst (λ c. Holds c (x ∷ y ∷ l)) (sym eq)
      (
        (
          refl,
          update_other p y x x (λ e. new.1.0 (sym e)) ∙ update_same d.prev x 0,
          (update_same d.next x y, s₃.1, s₃.2),
        ),
        (new.0, z),
        (new.1, a),
      )

pub insert_back-Holds :
    (x : ℕ) (d : DlList) (l : List ℕ)
    → IsNew x l
    → Holds d l
    → Holds (insert_back x d) (l ++ x ∷ [])
unfolding insert_back
insert_back-Holds x d [] new (s, z, a) =
    let d' : DlList = record d {
      head = x;
      tail = x;
      prev = update d.prev x 0;
      next = update d.next x 0;
    } in
    let eq : insert_back x d ≡ d' = rw (s.1) refl in
    subst (λ c. Holds c (x ∷ [])) (sym eq)
      ((refl, update_same d.prev x 0, (update_same d.next x 0, refl)), (new.0, tt), (tt, tt))
insert_back-Holds x d (y ∷ l) new (s, z, a) =
    let t = d.tail in
    let n = update d.next x 0 in
    let p = update d.prev x t in
    let ne : t ≢ 0 = Seg-last (λ b. b ≢ 0) d.prev d.next 0 y l d.head 0 t s z in
    let old : t ≢ x = Seg-last (λ b. b ≢ x) d.prev d.next 0 y l d.head 0 t s new.1 in
    let d' : DlList = record d { tail = x; prev = p; next = update n t x } in
    let eq : insert_back x d ≡ d' = rw (==_ne t 0 ne) refl in
    let s₁ = Seg-next d.prev d.next x 0 0 (y ∷ l) d.head 0 t new.1 s in
    let s₂ = Seg-prev d.prev n x t 0 (y ∷ l) d.head 0 t new.1 s₁ in
    let s₃ = Seg-relink_last p n 0 y l d.head 0 x t a s₂ in
    let end_x = update_other n t x x (λ e. old (sym e)) ∙ update_same d.next x 0 in
    subst (λ c. Holds c (y ∷ l ++ x ∷ [])) (sym eq)
      (
        Seg-join p (update n t x) 0 (y ∷ l) (x ∷ []) d.head x t 0 x s₃
            (refl, update_same d.prev x t, (end_x, refl)),
        All-append (λ b. b ≢ 0) (y ∷ l) (x ∷ []) z (new.0, tt),
        Apart-join (y ∷ l) (x ∷ []) a (tt, tt)
            (All-map (λ b h. ((λ e. h (sym e)), tt)) (y ∷ l) new.1),
      )

pub pop-Holds :
    (d : DlList) (x : ℕ) (l : List ℕ) → Holds d (x ∷ l) → ((pop d).0 ≡ x) × Holds (pop d).1 l
unfolding pop
pop-Holds d x l h =
    let eq : (pop d).1 ≡ remove x d = rw (h.0.0, ==_ne x 0 h.1.0) refl in
    (h.0.0, subst (λ c. Holds c l) (sym eq) (remove-Holds d [] x l h))

pub pop_tail-Holds :
    (d : DlList) (l : List ℕ) (x : ℕ)
    → Holds d (l ++ x ∷ [])
    → ((pop_tail d).0 ≡ x) × Holds (pop_tail d).1 (l ++ [])
unfolding pop_tail
pop_tail-Holds d l x h =
    let t : d.tail ≡ x = (Seg-split d.prev d.next 0 l x [] d.head 0 d.tail h.0).1.1 in
    let ne : x ≢ 0 = (All-split (λ y. y ≢ 0) l (x ∷ []) h.1).1.0 in
    let eq : (pop_tail d).1 ≡ remove x d = rw (t, ==_ne x 0 ne) refl in
    (t, subst (λ c. Holds c (l ++ [])) (sym eq) (remove-Holds d l x [] h))

-- Nothing is returned of an empty list, which stays empty.
pub pop-none : (d : DlList) → Holds d [] → ((pop d).0 ≡ 0) × Holds (pop d).1 []
unfolding pop
pop-none d h =
    let eq : (pop d).1 ≡ d = rw (h.0.0) refl in (h.0.0, subst (λ c. Holds c []) (sym eq) h)

pub pop_tail-none : (d : DlList) → Holds d [] → ((pop_tail d).0 ≡ 0) × Holds (pop_tail d).1 []
unfolding pop_tail
pop_tail-none d h =
    let eq : (pop_tail d).1 ≡ d = rw (h.0.1) refl in (h.0.1, subst (λ c. Holds c []) (sym eq) h)

delete_item-Holds :
    (junk : ℕ → ℕ) (x : ℕ) (d : DlList) (l : List ℕ)
    → All (λ y. y ≢ x) l
    → Holds d l
    → Holds (delete_item junk x d) l
unfolding delete_item
delete_item-Holds junk x d l apart (s, z, a) = (
  Seg-next (update d.prev x (junk x)) d.next x (junk x) 0 l d.head 0 d.tail apart
      (Seg-prev d.prev d.next x (junk x) 0 l d.head 0 d.tail apart s),
  z,
  a,
)

clear-step :
    (junk : ℕ → ℕ) (fuel x : ℕ) (d : DlList) (b : Bool) {r : Option (List ℕ × DlList)}
    → d.head ≡ x
    → x ≢ 0
    → clear b junk fuel (if b then delete_item junk x (remove x d) else remove x d) ≡ r
    → clear b junk (suc fuel) d ≡ deleted_first b x r
unfolding clear
clear-step junk fuel x d b {r} at nonzero rest =
    let e₀ : (d.head == 0) ≡ false = rw at (==_ne x 0 nonzero) in
    rw e₀ (
      subst
        (λ y.
          deleted_first b y
            (clear b junk fuel (if b then delete_item junk y (remove y d) else remove y d))
          ≡ deleted_first b x r)
        (sym at) (ap (deleted_first b x) rest))

-- `clear` ends with nothing in the list, a round of its loop for each element being enough, and has
-- deleted each element once if it is to. What becomes of the fields of a deleted element is not read.
pub clear-empties :
    (b : Bool) (junk : ℕ → ℕ) (fuel : ℕ) (d : DlList) (l : List ℕ)
    → Holds d l
    → length l < fuel
    → (d' : DlList) × (clear b junk fuel d ≡ some (if b then l else [], d')) × Holds d' []
unfolding clear
clear-empties b junk zero d l h lt = absurd (omega arith)
clear-empties true junk (suc fuel) d [] h lt = (d, rw (h.0.0) refl, h)
clear-empties false junk (suc fuel) d [] h lt = (d, rw (h.0.0) refl, h)
clear-empties true junk (suc fuel) d (x ∷ l) h lt =
    let kept = delete_item-Holds junk x (remove x d) l h.2.0 (remove-Holds d [] x l h) in
    let (d', e, h') = clear-empties true junk fuel _ l kept (omega arith) in
    (d', clear-step junk fuel x d true h.0.0 h.1.0 e, h')
clear-empties false junk (suc fuel) d (x ∷ l) h lt =
    let (d', e, h') = clear-empties false junk fuel _ l (remove-Holds d [] x l h) (omega arith) in
    (d', clear-step junk fuel x d false h.0.0 h.1.0 e, h')

-- A move hands the elements over.
pub move_from-Holds :
    (o : DlList) (l : List ℕ) → Holds o l → Holds (move_from o).0 l × Holds (move_from o).1 []
unfolding move_from
move_from-Holds o l h = (h, ((refl, refl), tt, tt))
