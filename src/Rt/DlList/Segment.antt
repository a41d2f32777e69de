-- ===== src/Rt/DlList/Segment.antt =====
-- Pieces of a doubly linked list.
use verona.Prelude.{ℕ, ◌≡◌, ◌≢◌, ◌++◌, sym, List, [], ◌∷◌, update, update_same, All, ==_ne, subst}

-- The elements of a list from the pointer `h` on to the pointer `n`, behind the element `p`; `t` is the
-- last of them, or `p`.
abbrev pub Seg : (ℕ → ℕ) → (ℕ → ℕ) → ℕ → List ℕ → ℕ → ℕ → ℕ → Type 0
Seg prev next p [] h n t = (h ≡ n) × (t ≡ p)
Seg prev next p (x ∷ l) h n t = (h ≡ x) × (prev x ≡ p) × Seg prev next x l (next x) n t

abbrev pub Apart : List ℕ → Type 0
Apart [] = Unit
Apart (x ∷ l) = All (λ y. y ≢ x) l × Apart l

-- A list is linked as before where an element of no concern changes.
pub Seg-prev :
    (prev next : ℕ → ℕ) (a v p : ℕ) (l : List ℕ) (h n t : ℕ)
    → All (λ y. y ≢ a) l
    → Seg prev next p l h n t
    → Seg (update prev a v) next p l h n t
Seg-prev prev next a v p [] h n t k s = s
Seg-prev prev next a v p (x ∷ l) h n t k s =
    (s.0, rw (==_ne x a k.0) s.1, Seg-prev prev next a v x l (next x) n t k.1 s.2)

pub Seg-next :
    (prev next : ℕ → ℕ) (a v p : ℕ) (l : List ℕ) (h n t : ℕ)
    → All (λ y. y ≢ a) l
    → Seg prev next p l h n t
    → Seg prev (update next a v) p l h n t
Seg-next prev next a v p [] h n t k s = s
Seg-next prev next a v p (x ∷ l) h n t k s =
    (s.0, s.1, rw (==_ne x a k.0) (Seg-next prev next a v x l (next x) n t k.1 s.2))

pub Seg-split :
    (prev next : ℕ → ℕ) (p : ℕ) (xs : List ℕ) (x : ℕ) (ys : List ℕ) (h n t : ℕ)
    → Seg prev next p (xs ++ x ∷ ys) h n t
    → Seg prev next p xs h x (prev x) × Seg prev next x ys (next x) n t
Seg-split prev next p [] x ys h n t s = ((s.0, s.1), s.2)
Seg-split prev next p (z ∷ xs) x ys h n t s =
    let k = Seg-split prev next z xs x ys (next z) n t s.2 in ((s.0, s.1, k.0), k.1)

pub Seg-join :
    (prev next : ℕ → ℕ) (p : ℕ) (xs ys : List ℕ) (h m q n t : ℕ)
    → Seg prev next p xs h m q
    → Seg prev next q ys m n t
    → Seg prev next p (xs ++ ys) h n t
Seg-join prev next p [] ys h m q n t s k =
    subst (λ c. Seg prev next p ys c n t) (sym s.0) (subst (λ c. Seg prev next c ys m n t) s.1 k)
Seg-join prev next p (x ∷ xs) ys h m q n t s k =
    (s.0, s.1, Seg-join prev next x xs ys (next x) m q n t s.2 k)

-- What holds of the elements holds of the last one.
pub Seg-last :
    (P : ℕ → Type 0) (prev next : ℕ → ℕ) (p x : ℕ) (l : List ℕ) (h n t : ℕ)
    → Seg prev next p (x ∷ l) h n t
    → All P (x ∷ l)
    → P t
Seg-last P prev next p x [] h n t s k = subst P (sym s.2.1) k.0
Seg-last P prev next p x (y ∷ l) h n t s k = Seg-last P prev next x y l (next x) n t s.2 k.1

-- The first element gets another one before it, the last one another one behind it.
pub Seg-relink_first :
    (prev next : ℕ → ℕ) (p p' y : ℕ) (l : List ℕ) (h n t : ℕ)
    → Apart (y ∷ l)
    → Seg prev next p (y ∷ l) h n t
    → Seg (update prev y p') next p' (y ∷ l) h n t
Seg-relink_first prev next p p' y l h n t a s =
    (s.0, update_same prev y p', Seg-prev prev next y p' y l (next y) n t a.0 s.2)

pub Seg-relink_last :
    (prev next : ℕ → ℕ) (p x : ℕ) (l : List ℕ) (h n n' t : ℕ)
    → Apart (x ∷ l)
    → Seg prev next p (x ∷ l) h n t
    → Seg prev (update next t n') p (x ∷ l) h n' t
Seg-relink_last prev next p x [] h n n' t a s =
    (s.0, s.1, (rw (sym s.2.1) (update_same next t n'), s.2.1))
Seg-relink_last prev next p x (y ∷ l) h n n' t a s =
    let ne : t ≢ x = Seg-last (λ z. z ≢ x) prev next x y l (next x) n t s.2 a.0 in
    let rest = Seg-relink_last prev next x y l (next x) n n' t a.1 s.2 in
    (s.0, s.1, rw (==_ne x t (λ e. ne (sym e))) rest)
