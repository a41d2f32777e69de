-- ===== src/Rt/DlList/Refine.antt =====
-- The class does what a list does.
use verona.Prelude.{
  ℕ, ◌≡◌, ◌≢◌, ◌++◌, ap, sym, refl, ◌∙◌, List, [], ◌∷◌, ◌==◌, if◌then◌else◌, ==_self, ==_ne, subst,
  All, All-map,
}
use verona.Rt.DlList.Defs.{DlList, remove, pop, pop_tail, insert, insert_back}
use verona.Rt.DlList.Removing.{Holds, IsNew, Apart-split, remove-Holds}
use verona.Rt.DlList.Keeps.{
  insert-Holds, insert_back-Holds, pop-Holds, pop_tail-Holds, pop-none, pop_tail-none,
}

-- The calls of a client.
pub data Op : Type 0 where
  inserts : ℕ → Op
  inserts_back : ℕ → Op
  removes : ℕ → Op
  pops : Op
  pops_tail : Op

-- What a call returns, 0 if nothing, and the list after it.
unfoldable pub invoke : Op → DlList → ℕ × DlList
invoke (inserts x) d = (0, insert x d)
invoke (inserts_back x) d = (0, insert_back x d)
invoke (removes x) d = (0, remove x d)
invoke pops d = pop d
invoke pops_tail d = pop_tail d

unfoldable pub calls : List Op → DlList → List ℕ
unfolding invoke
calls [] d = []
calls (o ∷ ops) d = (invoke o d).0 ∷ calls ops (invoke o d).1

-- The same of a list.
unfoldable pub without : ℕ → List ℕ → List ℕ
without x [] = []
without x (y ∷ l) = if y == x then l else y ∷ without x l

-- The last element, and the ones before it.
unfoldable pub unsnoc : ℕ → List ℕ → ℕ × List ℕ
unsnoc x [] = (x, [])
unsnoc x (y ∷ l) = ((unsnoc y l).0, x ∷ (unsnoc y l).1)

unfoldable pub call_list : Op → List ℕ → ℕ × List ℕ
unfolding without unsnoc
call_list (inserts x) l = (0, x ∷ l)
call_list (inserts_back x) l = (0, l ++ x ∷ [])
call_list (removes x) l = (0, without x l)
call_list pops [] = (0, [])
call_list pops (x ∷ l) = (x, l)
call_list pops_tail [] = (0, [])
call_list pops_tail (x ∷ l) = unsnoc x l

unfoldable pub calls_list : List Op → List ℕ → List ℕ
unfolding call_list
calls_list [] l = []
calls_list (o ∷ ops) l = (call_list o l).0 ∷ calls_list ops (call_list o l).1

-- What is asked of a call: no element is added that is null or in the list, or removed that is not in it.
abbrev pub Fits : Op → List ℕ → Type 0
Fits (inserts x) l = IsNew x l
Fits (inserts_back x) l = IsNew x l
Fits (removes x) l = (xs ys : List ℕ) × (l ≡ xs ++ x ∷ ys)
Fits pops l = Unit
Fits pops_tail l = Unit

abbrev pub AllFit : List Op → List ℕ → Type 0
unfolding call_list
AllFit [] l = Unit
AllFit (o ∷ ops) l = Fits o l × AllFit ops (call_list o l).1

without-append :
    (x : ℕ) (xs ys : List ℕ) → All (λ y. y ≢ x) xs → without x (xs ++ x ∷ ys) ≡ xs ++ ys
unfolding without
without-append x [] ys h = rw (==_self x) refl
without-append x (y ∷ xs) ys h = rw (==_ne y x h.0) (ap (λ l. y ∷ l) (without-append x xs ys h.1))

unsnoc-append : (x : ℕ) (l : List ℕ) → x ∷ l ≡ (unsnoc x l).1 ++ (unsnoc x l).0 ∷ []
unfolding unsnoc
unsnoc-append x [] = refl
unsnoc-append x (y ∷ l) = ap (λ l'. x ∷ l') (unsnoc-append y l)

append_nil : (l : List ℕ) → l ++ [] ≡ l
append_nil [] = refl
append_nil (x ∷ l) = ap (λ l'. x ∷ l') (append_nil l)

-- A call returns what it returns of the list, and leaves what it leaves of the list.
invoke-call_list :
    (o : Op) (d : DlList) (l : List ℕ)
    → Fits o l
    → Holds d l
    → ((invoke o d).0 ≡ (call_list o l).0) × Holds (invoke o d).1 (call_list o l).1
unfolding invoke call_list
invoke-call_list (inserts x) d l new h = (refl, insert-Holds x d l new h)
invoke-call_list (inserts_back x) d l new h = (refl, insert_back-Holds x d l new h)
invoke-call_list (removes x) d l (xs, ys, e) h =
    let h' = subst (Holds d) e h in
    let c = All-map (λ y k e'. k.0 (sym e')) xs (Apart-split xs (x ∷ ys) h'.2).2 in
    let gone = ap (without x) e ∙ without-append x xs ys c in
    (refl, subst (Holds (remove x d)) (sym gone) (remove-Holds d xs x ys h'))
invoke-call_list pops d [] f h = pop-none d h
invoke-call_list pops d (x ∷ l) f h = pop-Holds d x l h
invoke-call_list pops_tail d [] f h = pop_tail-none d h
invoke-call_list pops_tail d (x ∷ l) f h =
    let (t, init) = unsnoc x l in
    let k = pop_tail-Holds d init t (subst (Holds d) (unsnoc-append x l) h) in
    (k.0, subst (Holds (pop_tail d).1) (append_nil init) k.1)

-- A doubly linked list that holds the elements of a list returns, for any calls that add no element that
-- is null or in it and remove none that is not in it, what the list returns.
pub calls-calls_list :
    (ops : List Op) (d : DlList) (l : List ℕ)
    → AllFit ops l
    → Holds d l
    → calls ops d ≡ calls_list ops l
unfolding calls calls_list
calls-calls_list [] d l fit h = refl
calls-calls_list (o ∷ ops) d l fit h =
    let k = invoke-call_list o d l fit.0 h in
    rw (k.0) (
      ap (λ r. (call_list o l).0 ∷ r)
        (calls-calls_list ops (invoke o d).1 (call_list o l).1 fit.1 k.1))
