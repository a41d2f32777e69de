-- ===== src/Rt/Stack/Visits.antt =====
-- `empty`, `forall` and `dealloc` of src/rt/ds/stack.h.
use verona.Prelude.{
  ℕ, zero, suc, ◌-◌, ◌<◌, ◌≡◌, ◌≢◌, refl, sym, ap, subst, ◌∙◌, Bool, true, false, not, List, [],
  ◌∷◌, arith, ◌==◌, ==_ne, if◌then◌else◌, length,
}
use verona.Rt.Stack.Thin.{
  Memory, forget, Allocator, null_block, null_index, get_block, is_empty, StackThin, empty,
  forall_loop, forall, dealloc_loop, dealloc,
}
use verona.Rt.Stack.Holds.{IsAllocator, forget-Holds, Holds, bottom, first, further}
use verona.Rt.Stack.Refine.{
  Standing, not_null, pop_slow-case, is_empty-aligned, get_block-aligned, get_block-first,
  get_block-further,
}

abbrev is_nil : List ℕ → Bool
is_nil [] = true
is_nil (x ∷ xs) = false

empty_at :
    {memory : Memory} {blocks xs : List ℕ} {p : ℕ}
    → Holds memory blocks p xs
    → (p == null_index) ≡ is_nil xs
empty_at bottom = refl
empty_at (first n full link item below) = ==_ne _ _ (not_null (first n full link item below))
empty_at (further at lo hi item below) = ==_ne _ _ (not_null (further at lo hi item below))

forall-done : (fuel : ℕ) (memory : Memory) → forall_loop (suc fuel) memory false null_index ≡ []
unfolding forall_loop
forall-done fuel memory = refl

forall-inside :
    (fuel : ℕ) (memory : Memory) (p q : ℕ)
    → p - 1 ≡ q
    → forall_loop (suc fuel) memory true p
      ≡ memory p
        ∷ (if not (is_empty q)
            then forall_loop fuel memory true q
            else forall_loop fuel memory false (memory (get_block q)))
unfolding forall_loop
forall-inside fuel memory p q e =
    ap
      (λ r.
        memory p
        ∷ (if not (is_empty r)
            then forall_loop fuel memory true r
            else forall_loop fuel memory false (memory (get_block r))))
      e

forall-step :
    (fuel : ℕ) (memory : Memory) (inside : Bool) (p q : ℕ)
    → p - 1 ≡ q
    → (p == null_index) ≡ false
    → forall_loop (suc fuel) memory inside p
      ≡ memory p
        ∷ (if not (is_empty q)
            then forall_loop fuel memory true q
            else forall_loop fuel memory false (memory (get_block q)))
unfolding forall_loop
forall-step fuel memory true p q e h = forall-inside fuel memory p q e
forall-step fuel memory false p q e h = rw (h, forall_loop) (forall-inside fuel memory p q e)

forall-next :
    (fuel : ℕ) (memory : Memory) (inside : Bool) (p : ℕ)
    → (suc p == null_index) ≡ false
    → is_empty p ≡ false
    → forall_loop (suc fuel) memory inside (suc p) ≡ memory (suc p) ∷ forall_loop fuel memory true p
forall-next fuel memory inside p h more =
    forall-step fuel memory inside (suc p) p (omega arith) h ∙ rw more refl

forall-link :
    (fuel : ℕ) (memory : Memory) (inside : Bool) (p : ℕ)
    → (suc p == null_index) ≡ false
    → is_empty p ≡ true
    → forall_loop (suc fuel) memory inside (suc p)
      ≡ memory (suc p) ∷ forall_loop fuel memory false (memory (get_block p))
forall-link fuel memory inside p h last =
    forall-step fuel memory inside (suc p) p (omega arith) h ∙ rw last refl

cons : {x y : ℕ} {xs ys : List ℕ} → x ≡ y → xs ≡ ys → x ∷ xs ≡ y ∷ ys
cons {x} {y} {xs} {ys} e h = ap (λ z. z ∷ xs) e ∙ ap (λ zs. y ∷ zs) h

-- The inner loop goes on only where the block has an element left.
forall_at :
    {memory : Memory} {blocks xs : List ℕ} {p : ℕ} (fuel : ℕ) (inside : Bool)
    → Holds memory blocks p xs
    → (inside ≡ true → p ≢ null_index)
    → length xs < fuel
    → forall_loop fuel memory inside p ≡ xs
forall_at zero inside h ok lt = absurd (omega arith)
forall_at (suc fuel) true bottom ok lt = absurd (ok refl refl)
forall_at {memory} (suc fuel) false bottom ok lt = forall-done fuel memory
forall_at {memory} (suc fuel) inside (first {b} {xs = xs} n full link item below) ok lt =
    forall-link fuel memory inside b (==_ne _ _ (not_null (first n full link item below)))
      (is_empty-aligned b n.aligned)
    ∙ cons item (
        ap (forall_loop fuel memory false) (ap memory (get_block-aligned b n.aligned) ∙ link)
        ∙ forall_at fuel false below (λ e. absurd (ground arith)) (omega arith))
forall_at {memory} (suc fuel) inside (further {b} {p} at lo hi item below) ok lt =
    forall-next fuel memory inside p (==_ne _ _ (not_null (further at lo hi item below)))
      (pop_slow-case p lo)
    ∙ cons item (forall_at fuel true below (λ e. not_null below) (omega arith))

module _ {A : Type 0} (calls : Allocator A) (InUse : A → List ℕ → Type 0)
    (laws : IsAllocator calls InUse) where
  dealloc-step :
      (fuel : ℕ) (memory : Memory) (b : ℕ) (a : A)
      → b ≢ null_block
      → dealloc_loop calls (suc fuel) memory b a ≡ (
        b
            ∷ (dealloc_loop calls fuel
                (forget calls.junk b memory)
                (get_block (memory b))
                (calls.dealloc b a)).0,
        (dealloc_loop calls fuel
            (forget calls.junk b memory)
            (get_block (memory b))
            (calls.dealloc b a)).1,
      )
  unfolding dealloc_loop
  dealloc-step fuel memory b a h = rw (==_ne b null_block h, dealloc_loop) refl

  abbrev IsGivenBack : List ℕ → List ℕ × A → Type 0
  IsGivenBack blocks r = (r.0 ≡ blocks) × InUse r.1 []

  dealloc_at :
      (fuel : ℕ) (memory : Memory) {blocks xs : List ℕ} {p : ℕ} (a : A)
      → Holds memory blocks p xs
      → InUse a blocks
      → length blocks < fuel
      → IsGivenBack blocks (dealloc_loop calls fuel memory (get_block p) a)
  unfolding dealloc_loop get_block
  dealloc_at zero memory a h u lt = absurd (omega arith)
  dealloc_at (suc fuel) memory a bottom u lt = (refl, u)
  dealloc_at (suc fuel) memory a (first {b} {prev} {blocks} n full link item below) u lt =
      let a2 = calls.dealloc b a in
      let (rest, none_left) =
        subst
          (λ q.
            IsGivenBack blocks
              (dealloc_loop calls fuel (forget calls.junk b memory) (get_block q) a2))
          (sym link)
          (dealloc_at fuel (forget calls.junk b memory) a2
            (forget-Holds calls.junk memory b n.fresh below) (laws.dealloc-InUse a b blocks u)
            (omega arith)) in
      subst (λ c. IsGivenBack (b ∷ blocks) (dealloc_loop calls (suc fuel) memory c a))
        (sym (get_block-first b n.aligned))
        (subst (IsGivenBack (b ∷ blocks)) (sym (dealloc-step fuel memory b a n.not_null))
          (ap (λ cs. b ∷ cs) rest, none_left))
  dealloc_at (suc fuel) memory a (further {b} {p} {blocks} at lo hi item below) u lt =
      subst (λ c. IsGivenBack (b ∷ blocks) (dealloc_loop calls (suc fuel) memory c a))
        (at ∙ sym (get_block-further b p at hi)) (dealloc_at (suc fuel) memory a below u lt)

  -- For an allocator that obeys the laws of `IsAllocator`: of a stack that holds a list, `empty`
  -- tells whether the list is empty.
  pub empty-is_nil :
      (s : StackThin A) (xs : List ℕ) → Standing calls InUse laws s xs → empty s ≡ is_nil xs
  unfolding empty
  empty-is_nil s xs (blocks, h, u) = empty_at h

  -- For an allocator that obeys the laws of `IsAllocator`: `forall` visits each element of a
  -- stack that holds a list once, the newest first; one round more than there are elements is enough.
  pub forall-visits :
      (fuel : ℕ) (s : StackThin A) (xs : List ℕ)
      → Standing calls InUse laws s xs
      → length xs < fuel
      → forall fuel s ≡ xs
  unfolding forall
  forall-visits fuel s xs (blocks, h, u) lt = forall_at fuel false h (λ e. absurd (ground arith)) lt

  -- For an allocator that obeys the laws of `IsAllocator`: `dealloc` gives back each block of
  -- a stack that holds a list once, and no block stays in use; one round more than there are blocks is
  -- enough.
  pub dealloc-IsGivenBack :
      (fuel : ℕ) (s : StackThin A) (blocks xs : List ℕ)
      → Holds s.memory blocks s.index xs
      → InUse s.allocator blocks
      → length blocks < fuel
      → ((dealloc calls fuel s).0 ≡ blocks) × InUse (dealloc calls fuel s).1 []
  unfolding dealloc
  dealloc-IsGivenBack fuel s blocks xs h u lt = dealloc_at fuel s.memory s.allocator h u lt
