-- ===== src/Parser/Path/Split.antt =====
-- A path of src/parser/path.cc is its directory and its file name.
use verona.Prelude.{
  ℕ, zero, suc, ◌-◌, ◌≡◌, refl, sym, ap, subst, ◌∙◌, inl, inr, true, false, none, some,
  some-injective, [], ◌∷◌, ◌++◌, arith, ◌==◌, if◌then◌else◌, length, length-append, take, drop, All,
  Bool-cases, Option-cases,
}
use verona.Parser.Escaping.Bytes.{Bytes, at}
use verona.Parser.Path.Defs.{delim, rfind, is_directory, directory, filename, to_directory}

take-drop : (n : ℕ) (s : Bytes) → take n s ++ drop n s ≡ s
take-drop zero s = refl
take-drop (suc n) [] = refl
take-drop (suc n) (x ∷ s) = ap (λ r. x ∷ r) (take-drop n s)

append-nil : (s : Bytes) → s ++ [] ≡ s
append-nil [] = refl
append-nil (x ∷ s) = ap (λ r. x ∷ r) (append-nil s)

-- `directory` and `filename` split every path in two.
pub directory-filename : (path : Bytes) → directory path ++ filename path ≡ path
unfolding directory filename
directory-filename path = elim (Bool-cases (is_directory path)) [
  | inl yes_here ↦ rw (yes_here, directory, filename) (append-nil path)
  | inr no_here ↦ elim (Option-cases (rfind delim path)) [
    | inl e ↦ rw (no_here, directory, filename) (rw (e, directory, filename) refl)
    | inr (pos, e) ↦
        rw (no_here, directory, filename) (rw (e, directory, filename) (take-drop (suc pos) path))
  ]
]

rfind-behind : (c x : ℕ) (s : Bytes) {k : ℕ} → rfind c s ≡ some k → rfind c (x ∷ s) ≡ some (suc k)
unfolding rfind
rfind-behind c x s h = rw (h, rfind) refl

rfind-here :
    (c x : ℕ) (s : Bytes) → rfind c s ≡ none → rfind c (x ∷ s) ≡ (if x == c then some 0 else none)
unfolding rfind
rfind-here c x s h = rw (h, rfind) refl

-- No byte of the string is `c`.
abbrev pub Lacks : ℕ → Bytes → Type 0
Lacks c s = All (λ x. (x == c) ≡ false) s

rfind-none : (c : ℕ) (s : Bytes) → rfind c s ≡ none → Lacks c s
rfind-none c [] h = tt
rfind-none c (x ∷ s) h = elim (Option-cases (rfind c s)) [
  | inl e ↦ (ground (arith, rfind-here c x s e), rfind-none c s e)
  | inr (k, e) ↦ ground (arith, rfind-behind c x s e)
]

zero_of : (c x k : ℕ) → (if x == c then some 0 else none) ≡ some k → 0 ≡ k
zero_of c x k h = ground arith

rfind-some : (c : ℕ) (s : Bytes) (k : ℕ) → rfind c s ≡ some k → Lacks c (drop (suc k) s)
rfind-some c [] k h = tt
rfind-some c (x ∷ s) k h = elim (Option-cases (rfind c s)) [
  | inl e ↦
      subst (λ n. Lacks c (drop n s)) (zero_of c x k (sym (rfind-here c x s e) ∙ h))
        (rfind-none c s e)
  | inr (j, e) ↦
      subst (λ n. Lacks c (drop n s)) (some-injective _ _ (sym (rfind-behind c x s e) ∙ h))
        (rfind-some c s j e)
]

-- The file name has no delimiter in it.
pub filename-Lacks : (path : Bytes) → Lacks delim (filename path)
unfolding filename
filename-Lacks path = elim (Bool-cases (is_directory path)) [
  | inl yes_here ↦ rw (yes_here, filename) tt
  | inr no_here ↦ elim (Option-cases (rfind delim path)) [
    | inl e ↦ rw (no_here, filename) (rw (e, filename) (rfind-none delim path e))
    | inr (pos, e) ↦ rw (no_here, filename) (rw (e, filename) (rfind-some delim path pos e))
  ]
]

at-last : (s : Bytes) (c : ℕ) → at (s ++ c ∷ []) (length s) ≡ c
at-last [] c = refl
at-last (x ∷ s) c = at-last s c

last_index : (l n : ℕ) → l ≡ suc n → l - 1 ≡ n
last_index l n h = omega arith

is_directory-last : (s : Bytes) (n : ℕ) → length s ≡ suc n → at s n ≡ delim → is_directory s ≡ true
unfolding is_directory
is_directory-last s n len h = ground (arith, ap (at s) (last_index (length s) n len) ∙ h)

is_directory-delim : (path : Bytes) → is_directory (path ++ delim ∷ []) ≡ true
is_directory-delim path =
    is_directory-last (path ++ delim ∷ []) (length path)
      (omega (arith, length-append path (delim ∷ []))) (at-last path delim)

to_directory-same : (path : Bytes) → is_directory path ≡ true → to_directory path ≡ path
unfolding to_directory
to_directory-same path h = rw (h, to_directory) refl

to_directory-ends : (path : Bytes) → is_directory (to_directory path) ≡ true
unfolding to_directory
to_directory-ends path = elim (Bool-cases (is_directory path)) [
  | inl h ↦ rw (h, to_directory) h
  | inr h ↦ rw (h, to_directory) (is_directory-delim path)
]

-- `to_directory` makes a directory of every path; what it does twice is what it does once.
pub to_directory-is_directory :
    (path : Bytes)
    → (is_directory (to_directory path) ≡ true)
      × (to_directory (to_directory path) ≡ to_directory path)
to_directory-is_directory path =
    (to_directory-ends path, to_directory-same (to_directory path) (to_directory-ends path))
