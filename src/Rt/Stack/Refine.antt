-- ===== src/Rt/Stack/Refine.antt =====
-- `StackThin` of src/rt/ds/stack.h as a list.
use verona.Prelude.{
  ℕ, suc, ◌-◌, ◌%◌, ◌≡◌, ◌≢◌, refl, sym, ap, subst, ◌∙◌, inl, inr, true, false, Option, none, some,
  some-injective, List, [], ◌∷◌, arith, ==_ne, eq_of_==, Bool-cases, Option-cases,
}
use verona.Rt.Stack.Thin.{
  Memory, write, forget, Allocator, null_index, get_block, is_empty, is_full, StackThin, peek, push,
  push_slow, pop, pop_slow,
}
use verona.Rt.Stack.Holds.{
  base, IsNew, IsFresh, forget-Holds, IsAllocator, Holds, first, further, push-first, push-further,
  base-further,
}

-- The calls of a client.
pub data Call : Type 0 where
  pushes : ℕ → Call
  pops : Call

-- What the calls of `pop` return, on the stack and on a list; a list has no `pop` when it is empty.
unfoldable pub run : {A : Type 0} (calls : Allocator A) → List Call → StackThin A → List ℕ
unfolding push pop
run calls [] s = []
run calls (pushes x ∷ rest) s = run calls rest (push calls x s)
run calls (pops ∷ rest) s = (pop calls s).0 ∷ run calls rest (pop calls s).1

unfoldable pub run_list : List Call → List ℕ → Option (List ℕ)
run_list [] xs = some []
run_list (pushes x ∷ rest) xs = run_list rest (x ∷ xs)
run_list (pops ∷ rest) [] = none
run_list (pops ∷ rest) (x ∷ xs) = elim (run_list rest xs) [ none ↦ none | some ys ↦ some (x ∷ ys) ]

run_list-stops :
    (x : ℕ) (rest : List Call) (xs : List ℕ)
    → run_list rest xs ≡ none
    → run_list (pops ∷ rest) (x ∷ xs) ≡ none
unfolding run_list
run_list-stops x rest xs h = rw (h, run_list) refl

run_list-goes :
    (x : ℕ) (rest : List Call) (xs : List ℕ) {ys : List ℕ}
    → run_list rest xs ≡ some ys
    → run_list (pops ∷ rest) (x ∷ xs) ≡ some (x ∷ ys)
unfolding run_list
run_list-goes x rest xs h = rw (h, run_list) refl

pub Holds-New :
    {memory : Memory} {b : ℕ} {blocks xs : List ℕ} {p : ℕ}
    → Holds memory (b ∷ blocks) p xs
    → IsNew b blocks
Holds-New (first n full link item below) = n
Holds-New (further at lo hi item below) = Holds-New below

pub not_null :
    {memory : Memory} {b : ℕ} {blocks xs : List ℕ} {p : ℕ}
    → Holds memory (b ∷ blocks) p xs
    → p ≢ null_index
not_null (first {b} n full link item below) e = let aligned = n.aligned in omega arith
not_null (further {b} {p} at lo hi item below) e = (Holds-New below).not_null (sym at ∙ omega arith)

is_full-lem : (p : ℕ) → p % 64 ≢ 63 → is_full p ≡ false
unfolding is_full
is_full-lem p h = ==_ne _ _ h

is_full-true : (p : ℕ) → is_full p ≡ true → p % 64 ≡ 63
unfolding is_full
is_full-true p h = eq_of_== _ _ h

is_full-false : (p : ℕ) → is_full p ≡ false → p % 64 ≢ 63
unfolding is_full
is_full-false p h e = ground arith

pub pop_slow-case : (p : ℕ) → p % 64 ≢ 0 → is_empty p ≡ false
unfolding is_empty
pop_slow-case p h = ==_ne _ _ h

pub is_empty-aligned : (p : ℕ) → p % 64 ≡ 0 → is_empty p ≡ true
unfolding is_empty
is_empty-aligned p h = rw h refl

pub get_block-further : (b p : ℕ) → base p ≡ b → p % 64 ≢ 63 → get_block (suc p) ≡ b
unfolding get_block
get_block-further b p at hi = base-further p hi ∙ at

pub get_block-aligned : (b : ℕ) → b % 64 ≡ 0 → get_block b ≡ b
unfolding get_block
get_block-aligned b h = omega arith

pub get_block-first : (b : ℕ) → b % 64 ≡ 0 → get_block (suc b) ≡ b
unfolding get_block
get_block-first b h = omega arith

module _ {A : Type 0} (calls : Allocator A) (InUse : A → List ℕ → Type 0)
    (laws : IsAllocator calls InUse) where
  -- The stack holds `xs`, in blocks that are in use.
  abbrev pub Standing : StackThin A → List ℕ → Type 0
  Standing s xs = (blocks : List ℕ) × Holds s.memory blocks s.index xs × InUse s.allocator blocks

  push-room :
      (x : ℕ) (s : StackThin A)
      → is_full s.index ≡ false
      → push calls x s ≡ record s { index = suc s.index; memory = write s.memory (suc s.index) x }
  unfolding push
  push-room x s room = rw (room, push) refl

  push-full :
      (x : ℕ) (s : StackThin A) → is_full s.index ≡ true → push calls x s ≡ push_slow calls x s
  unfolding push
  push-full x s full = rw (full, push) refl

  pub push-Standing :
      (x : ℕ) (s : StackThin A) (xs : List ℕ) → Standing s xs → Standing (push calls x s) (x ∷ xs)
  unfolding push_slow
  push-Standing x s xs (blocks, h, u) = elim (Bool-cases (is_full s.index)) [
    | inl full ↦ rw (push-full x s full) (
      (calls.alloc s.allocator).0 ∷ blocks,
      push-first s.memory x _ (laws.InUse-IsNew _ _ blocks (laws.alloc-InUse s.allocator blocks u))
          (is_full-true s.index full) h,
      laws.alloc-InUse s.allocator blocks u,
    )
    | inr room ↦
        rw (push-room x s room) (blocks, push-further s.memory x (is_full-false s.index room) h, u)
  ]

  pop-quick :
      (s : StackThin A) (q : ℕ)
      → s.index - 1 ≡ q
      → is_empty q ≡ false
      → pop calls s ≡ (peek s, record s { index = q })
  unfolding pop
  pop-quick s q e more =
      subst (λ r. pop calls s ≡ (peek s, record s { index = r })) e
        (rw (ap is_empty e ∙ more, pop) refl)

  pop-slow :
      (s : StackThin A) (q : ℕ)
      → s.index - 1 ≡ q
      → is_empty q ≡ true
      → pop calls s ≡ pop_slow calls s
  unfolding pop
  pop-slow s q e last = rw (ap is_empty e ∙ last, pop) refl

  pop_slow-Standing :
      (s : StackThin A) (b prev : ℕ) (blocks xs : List ℕ) {x : ℕ}
      → get_block s.index ≡ b
      → s.memory b ≡ prev
      → s.memory s.index ≡ x
      → IsFresh b blocks
      → Holds s.memory blocks prev xs
      → InUse s.allocator (b ∷ blocks)
      → ((pop_slow calls s).0 ≡ x) × Standing (pop_slow calls s).1 xs
  unfolding pop_slow peek
  pop_slow-Standing s b prev blocks xs at link item fresh below u = (
    item,
    (
      blocks,
      subst (λ c. Holds (forget calls.junk c s.memory) blocks (s.memory c) xs) (sym at)
          (forget-Holds calls.junk s.memory b fresh
            (subst (λ p. Holds s.memory blocks p xs) (sym link) below)),
      subst (λ c. InUse (calls.dealloc c s.allocator) blocks) (sym at)
          (laws.dealloc-InUse s.allocator b blocks u),
    ),
  )

  pop_at :
      (memory : Memory) (a : A) {blocks xs : List ℕ} {p x : ℕ}
      → Holds memory blocks p (x ∷ xs)
      → InUse a blocks
      → ((pop calls (record { index = p; memory = memory; allocator = a })).0 ≡ x)
        × Standing (pop calls (record { index = p; memory = memory; allocator = a })).1 xs
  unfolding peek
  pop_at memory a (first {b} {prev} {blocks} {xs} {x} n full link item below) u =
      let s : StackThin A = record { index = suc b; memory = memory; allocator = a } in
      subst (λ r. (r.0 ≡ x) × Standing r.1 xs)
        (sym (pop-slow s b (omega arith) (is_empty-aligned b n.aligned)))
        (pop_slow-Standing s b prev blocks xs (get_block-first b n.aligned) link item n.fresh below
          u)
  pop_at memory a (further {b} {p} {blocks} {xs} {x} at lo hi item below) u =
      let s : StackThin A = record { index = suc p; memory = memory; allocator = a } in
      subst (λ r. (r.0 ≡ x) × Standing r.1 xs)
        (sym (pop-quick s p (omega arith) (pop_slow-case p lo))) (item, (b ∷ blocks, below, u))

  pub pop-Standing :
      (x : ℕ) (s : StackThin A) (xs : List ℕ)
      → Standing s (x ∷ xs)
      → ((pop calls s).0 ≡ x) × Standing (pop calls s).1 xs
  pop-Standing x s xs (blocks, h, u) = pop_at s.memory s.allocator h u

  -- For an allocator that obeys the laws of `IsAllocator`: a stack that holds a list returns, for
  -- any calls of `push` and `pop`, what the list returns, where the list serves all of them.
  pub run-run_list :
      (todo : List Call) (s : StackThin A) (xs : List ℕ) {answers : List ℕ}
      → Standing s xs
      → run_list todo xs ≡ some answers
      → run calls todo s ≡ answers
  unfolding run run_list
  run-run_list [] s xs h e = some-injective _ _ e
  run-run_list (pushes x ∷ rest) s xs h e =
      run-run_list rest (push calls x s) (x ∷ xs) (push-Standing x s xs h) e
  run-run_list (pops ∷ rest) s [] h e = ground arith
  run-run_list (pops ∷ rest) s (x ∷ xs) {answers} h e = elim (Option-cases (run_list rest xs)) [
    | inl stops ↦ ground (arith, run_list-stops x rest xs stops)
    | inr (ys, goes) ↦
        let (top, below) = pop-Standing x s xs h in
        ap (λ y. y ∷ run calls rest (pop calls s).1) top
        ∙ ap (λ zs. x ∷ zs) (run-run_list rest (pop calls s).1 xs below goes)
        ∙ some-injective _ _ (sym (run_list-goes x rest xs goes) ∙ e)
  ]
