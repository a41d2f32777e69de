-- ===== src/Rt/Stack/GivesBack.antt =====
-- The calls of `dealloc` that the destructors of src/rt/ds/stack.h make, in their order.
use verona.Prelude.{
  ℕ, zero, suc, ◌<◌, ◌≡◌, ◌≢◌, refl, sym, ap, ◌∙◌, Option, none, some, List, [], ◌∷◌, ◌++◌, arith,
  ==_ne, length,
}
use verona.Rt.Stack.Thin.{Memory, forget, Allocator, null_block, get_block, dealloc_loop}
use verona.Rt.Stack.Holds.{forget-Holds, Holds, bottom, first, further}
use verona.Rt.Stack.Refine.{get_block-first, get_block-further}
use verona.Rt.Stack.Backup.{backup_dealloc, backup_release, backup_calls}

module _ {A : Type 0} (calls : Allocator A) where
  -- The allocator after `dealloc` of each of the blocks, the first one first.
  abbrev pub give_back : List ℕ → A → A
  give_back [] a = a
  give_back (b ∷ blocks) a = give_back blocks (calls.dealloc b a)

  dealloc_loop-step :
      (fuel : ℕ) (memory : Memory) (b : ℕ) (a : A)
      → b ≢ null_block
      → (dealloc_loop calls (suc fuel) memory b a).1
        ≡ (dealloc_loop calls fuel
            (forget calls.junk b memory)
            (get_block (memory b))
            (calls.dealloc b a)).1
  unfolding dealloc_loop
  dealloc_loop-step fuel memory b a h = rw (==_ne b null_block h, dealloc_loop) refl

  -- `dealloc` makes these calls and no other.
  pub dealloc-each :
      (fuel : ℕ) (memory : Memory) {blocks xs : List ℕ} {p : ℕ} (a : A)
      → Holds memory blocks p xs
      → length blocks < fuel
      → (dealloc_loop calls fuel memory (get_block p) a).1 ≡ give_back blocks a
  unfolding dealloc_loop get_block
  dealloc-each zero memory a h lt = absurd (omega arith)
  dealloc-each (suc fuel) memory a bottom lt = refl
  dealloc-each (suc fuel) memory a (first {b} n full link item below) lt =
      ap (λ c. (dealloc_loop calls (suc fuel) memory c a).1) (get_block-first b n.aligned)
      ∙ dealloc_loop-step fuel memory b a n.not_null
      ∙ ap
          (λ q.
            (dealloc_loop calls fuel (forget calls.junk b memory) (get_block q)
              (calls.dealloc b a)).1)
          link
      ∙ dealloc-each fuel (forget calls.junk b memory) (calls.dealloc b a)
          (forget-Holds calls.junk memory b n.fresh below) (omega arith)
  dealloc-each (suc fuel) memory a (further {b} {p} at lo hi item below) lt =
      ap (λ c. (dealloc_loop calls (suc fuel) memory c a).1) (get_block-further b p at hi ∙ sym at)
      ∙ dealloc-each (suc fuel) memory a below lt

-- The order in which `BackupAlloc` gives the blocks back to the allocator under it.
abbrev pub kept_last : Option ℕ → List ℕ → List ℕ
kept_last (some c) blocks = blocks ++ c ∷ []
kept_last none [] = []
kept_last none (b ∷ blocks) = blocks ++ b ∷ []

module _ {A : Type 0} (calls : Allocator A) where
  each-kept :
      (c : ℕ) (u : A) (blocks : List ℕ)
      → backup_release calls
          (give_back (backup_calls calls) blocks (record { backup = some c; underlying_alloc = u }))
        ≡ give_back calls (blocks ++ c ∷ []) u
  unfolding backup_release backup_calls backup_dealloc
  each-kept c u [] = refl
  each-kept c u (b ∷ blocks) = each-kept c (calls.dealloc b u) blocks

  pub each-kept_last :
      (o : Option ℕ) (u : A) (blocks : List ℕ)
      → backup_release calls
          (give_back (backup_calls calls) blocks (record { backup = o; underlying_alloc = u }))
        ≡ give_back calls (kept_last o blocks) u
  unfolding backup_release backup_calls backup_dealloc
  each-kept_last (some c) u blocks = each-kept c u blocks
  each-kept_last none u [] = refl
  each-kept_last none u (b ∷ blocks) = each-kept b u blocks
