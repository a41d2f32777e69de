-- ===== src/Rt/Queue/Refine.antt =====
-- The queue does what a list does, to which elements are added behind and taken from the front.
use verona.Prelude.{
  ℕ, zero, suc, ◌+◌, ◌<◌, ◌≡◌, ◌≢◌, ◌++◌, ap, sym, refl, ◌∙◌, List, [], ◌∷◌, Option, none, some,
  length, update, arith, All, All-append, ==_self, ==_ne,
}
use verona.Rt.Queue.Defs.{Queue, enqueue, dequeue, count_links, length_of}

-- Each element leads to the following one, the last one being `last`.
abbrev pub Links : (ℕ → ℕ) → ℕ → List ℕ → ℕ → Type 0
Links next x [] last = x ≡ last
Links next x (y ∷ l) last = (next x ≡ y) × Links next y l last

abbrev pub Apart : List ℕ → Type 0
Apart [] = Unit
Apart (x ∷ l) = All (λ y. y ≢ x) l × Apart l

-- The queue holds the elements of the list, none of which is null or there twice.
abbrev pub Holds : Queue → List ℕ → Type 0
Holds q [] = (q.first ≡ 0) × (q.last ≡ 0)
Holds q (x ∷ l) = (q.first ≡ x) × Links q.next x l q.last × All (λ y. y ≢ 0) (x ∷ l) × Apart (x ∷ l)

-- What is asked of an element that is added.
abbrev pub IsNew : ℕ → List ℕ → Type 0
IsNew n l = (n ≢ 0) × All (λ y. y ≢ n) l

last_inside :
    (next : ℕ → ℕ) (x y : ℕ) (l : List ℕ) (last : ℕ)
    → Links next y l last
    → All (λ z. z ≢ x) (y ∷ l)
    → x ≢ last
last_inside next x y [] last h a e = a.0 (h ∙ sym e)
last_inside next x y (z ∷ l) last h a e = last_inside next x z l last h.1 a.1 e

Links-add :
    (next : ℕ → ℕ) (n x : ℕ) (l : List ℕ) (last : ℕ)
    → Links next x l last
    → Apart (x ∷ l)
    → Links (update next last n) x (l ++ n ∷ []) n
Links-add next n x [] last e a = (rw e (rw (==_self last) refl), refl)
Links-add next n x (y ∷ l) last (e, h) a =
    (rw (==_ne x last (last_inside next x y l last h a.0)) e, Links-add next n y l last h a.1)

Apart-add : (n : ℕ) (l : List ℕ) → Apart l → All (λ y. y ≢ n) l → Apart (l ++ n ∷ [])
Apart-add n [] a h = (tt, tt)
Apart-add n (x ∷ l) a h =
    (All-append (λ y. y ≢ x) l (n ∷ []) a.0 ((λ e. h.0 (sym e)), tt), Apart-add n l a.1 h.1)

pub enqueue-Holds :
    (n : ℕ) (q : Queue) (l : List ℕ) → IsNew n l → Holds q l → Holds (enqueue n q) (l ++ n ∷ [])
unfolding enqueue
enqueue-Holds n q [] new h = rw (h.0) (refl, refl, (new.0, tt), (tt, tt))
enqueue-Holds n q (x ∷ l) new h =
    rw (h.0, ==_ne x 0 h.2.0)
      (
        refl,
        Links-add q.next n x l q.last h.1 h.3,
        All-append (λ y. y ≢ 0) (x ∷ l) (n ∷ []) h.2 (new.0, tt),
        Apart-add n (x ∷ l) h.3 new.1,
      )

pub dequeue-Holds :
    (q : Queue) (x : ℕ) (l : List ℕ)
    → Holds q (x ∷ l)
    → (q' : Queue) × (dequeue q ≡ some (x, q')) × Holds q' l
unfolding dequeue
dequeue-Holds q x [] h = (
  record q { first = 0; last = 0 },
  rw (h.0, ==_ne x 0 h.2.0, sym h.1, ==_self x) refl,
  (refl, refl),
)
dequeue-Holds q x (y ∷ l) h = (
  record q { first = y },
  rw (h.0, ==_ne x 0 h.2.0, ==_ne x q.last (last_inside q.next x y l q.last h.1.1 h.3.0), h.1.0)
      refl,
  (refl, h.1.1, h.2.1, h.3.1),
)

dequeue-none : (q : Queue) → Holds q [] → dequeue q ≡ none
unfolding dequeue
dequeue-none q h = rw (h.0) refl

count_links-length :
    (next : ℕ → ℕ) (x last : ℕ) (l : List ℕ) (fuel len : ℕ)
    → Links next x l last
    → Apart (x ∷ l)
    → length l < fuel
    → count_links fuel next last x len ≡ some (len + length l)
unfolding count_links
count_links-length next x last l zero len h a lt = absurd (omega arith)
count_links-length next x last [] (suc fuel) len h a lt =
    rw (h, ==_self last) (ap some (omega arith))
count_links-length next x last (y ∷ l) (suc fuel) len h a lt =
    rw (==_ne x last (last_inside next x y l last h.1 a.0), h.0)
      (count_links-length next y last l fuel (suc len) h.1 a.1 (omega arith)
        ∙ ap some (omega arith))

-- `length` counts the elements: a round of its loop for each is enough.
pub length_of-length :
    (fuel : ℕ) (q : Queue) (l : List ℕ)
    → Holds q l
    → length l < fuel
    → length_of fuel q ≡ some (length l)
unfolding length_of
length_of-length fuel q [] h lt = rw (h.0) refl
length_of-length fuel q (x ∷ l) h lt =
    rw (h.0, ==_ne x 0 h.2.0)
      (count_links-length q.next x q.last l fuel 1 h.1 h.3 (omega arith) ∙ ap some (omega arith))

-- The calls of a client, and what they return; `none` where an assertion fails.
pub data Op : Type 0 where
  adds : ℕ → Op
  takes : Op

abbrev pub prepend : ℕ → Option (List ℕ) → Option (List ℕ)
prepend x none = none
prepend x (some l) = some (x ∷ l)

unfoldable pub run : List Op → Queue → Option (List ℕ)
run [] q = some []
run (adds n ∷ ops) q = run ops (enqueue n q)
run (takes ∷ ops) q = elim (dequeue q) [ none ↦ none | some (x, q') ↦ prepend x (run ops q') ]

-- The same of a list.
pub run_elements : List Op → List ℕ → Option (List ℕ)
run_elements [] l = some []
run_elements (adds n ∷ ops) l = run_elements ops (l ++ n ∷ [])
run_elements (takes ∷ ops) [] = none
run_elements (takes ∷ ops) (x ∷ l) = prepend x (run_elements ops l)

-- No element is added that is null or in the queue at the time.
abbrev pub AddsNew : List Op → List ℕ → Type 0
AddsNew [] l = Unit
AddsNew (adds n ∷ ops) l = IsNew n l × AddsNew ops (l ++ n ∷ [])
AddsNew (takes ∷ ops) [] = Unit
AddsNew (takes ∷ ops) (x ∷ l) = AddsNew ops l

-- A queue that holds a list returns, for any calls of `enqueue` and `dequeue` that add no element that is
-- null or in the queue, what the list returns, whose elements leave in the order in which they came; and
-- it fails its assertion just when the list is empty.
pub run-run_elements :
    (ops : List Op) (q : Queue) (l : List ℕ)
    → AddsNew ops l
    → Holds q l
    → run ops q ≡ run_elements ops l
unfolding run run_elements
run-run_elements [] q l new h = refl
run-run_elements (adds n ∷ ops) q l new h =
    run-run_elements ops (enqueue n q) (l ++ n ∷ []) new.1 (enqueue-Holds n q l new.0 h)
run-run_elements (takes ∷ ops) q [] new h = rw (dequeue-none q h, run) refl
run-run_elements (takes ∷ ops) q (x ∷ l) new h =
    let (q', e, h') = dequeue-Holds q x l h in
    rw (e, run) (ap (prepend x) (run-run_elements ops q' l new h'))
