-- ===== src/Rt/Stack/Keeps.antt =====
-- `BackupAlloc` of src/rt/ds/stack.h is an allocator where the underlying one is, and `Stack` works on it.
use verona.Prelude.{ℕ, ◌<◌, ◌≡◌, Option, none, some, List, [], ◌∷◌, ◌++◌, length, ap, ◌∙◌}
use verona.Rt.Stack.Thin as Thin
use verona.Rt.Stack.Thin.{Allocator}
use verona.Rt.Stack.Holds.{IsNew, IsAllocator, Holds}
use verona.Rt.Stack.Backup.{
  backup_alloc, backup_dealloc, backup_release, backup_calls, Stack, destroy, BackupInUse,
}
use verona.Rt.Stack.Refine.{Standing, Call, run, run_list, run-run_list}
use verona.Rt.Stack.Visits.{dealloc-IsGivenBack}
use verona.Rt.Stack.GivesBack.{give_back, kept_last, dealloc-each, each-kept_last}

module _ {A : Type 0} (calls : Allocator A) (InUse : A → List ℕ → Type 0)
    (laws : IsAllocator calls InUse) where
  abbrev Kept : Option ℕ → A → List ℕ → Type 0
  Kept o u blocks = BackupInUse calls InUse (record { backup = o; underlying_alloc = u }) blocks

  IsNew-inner : (b c : ℕ) (blocks : List ℕ) (u : A) → InUse u (c ∷ b ∷ blocks) → IsNew b blocks
  IsNew-inner b c blocks u h = laws.InUse-IsNew _ b blocks (laws.dealloc-InUse u c (b ∷ blocks) h)

  Kept-IsNew :
      (o : Option ℕ) (u : A) (b : ℕ) (blocks : List ℕ) → Kept o u (b ∷ blocks) → IsNew b blocks
  Kept-IsNew none u b blocks h = laws.InUse-IsNew u b blocks h
  Kept-IsNew (some c) u b blocks h = IsNew-inner b c blocks u h

  alloc-Kept :
      (o : Option ℕ) (u : A) (blocks : List ℕ)
      → Kept o u blocks
      → BackupInUse calls InUse
          (backup_alloc calls (record { backup = o; underlying_alloc = u })).1
          ((backup_alloc calls (record { backup = o; underlying_alloc = u })).0 ∷ blocks)
  unfolding backup_alloc
  alloc-Kept none u blocks h = laws.alloc-InUse u blocks h
  alloc-Kept (some b) u blocks h = h

  dealloc-Kept :
      (o : Option ℕ) (u : A) (b : ℕ) (blocks : List ℕ)
      → Kept o u (b ∷ blocks)
      → BackupInUse calls InUse
          (backup_dealloc calls b (record { backup = o; underlying_alloc = u }))
          blocks
  unfolding backup_dealloc
  dealloc-Kept none u b blocks h = h
  dealloc-Kept (some c) u b blocks h =
      laws.dealloc-InUse u b (c ∷ blocks) (laws.swap-InUse u [] c b blocks h)

  swap-Kept :
      (o : Option ℕ) (u : A) (front : List ℕ) (b c : ℕ) (blocks : List ℕ)
      → Kept o u (front ++ b ∷ c ∷ blocks)
      → Kept o u (front ++ c ∷ b ∷ blocks)
  swap-Kept none u front b c blocks h = laws.swap-InUse u front b c blocks h
  swap-Kept (some d) u front b c blocks h = laws.swap-InUse u (d ∷ front) b c blocks h

  release-Kept :
      (o : Option ℕ) (u : A)
      → Kept o u []
      → InUse (backup_release calls (record { backup = o; underlying_alloc = u })) []
  unfolding backup_release
  release-Kept none u h = h
  release-Kept (some b) u h = laws.dealloc-InUse u b [] h

  -- Given an allocator whose blocks are aligned and distinct, `BackupAlloc` hands out such blocks too, and
  -- takes each of them back.
  pub backup-IsAllocator : IsAllocator (backup_calls calls) (BackupInUse calls InUse)
  unfolding backup_calls
  backup-IsAllocator = record {
    InUse-IsNew = λ r b blocks h. Kept-IsNew r.backup r.underlying_alloc b blocks h;
    alloc-InUse = λ r blocks h. alloc-Kept r.backup r.underlying_alloc blocks h;
    dealloc-InUse = λ r b blocks h. dealloc-Kept r.backup r.underlying_alloc b blocks h;
    swap-InUse = λ r front b c blocks h. swap-Kept r.backup r.underlying_alloc front b c blocks h;
  }

  -- Where the underlying allocator obeys the laws of `IsAllocator`: a `Stack` that holds a list
  -- returns, for any calls of `push` and `pop`, what the list returns, where the list serves all of them.
  pub Stack-run_list :
      (todo : List Call) (s : Stack calls) (xs : List ℕ) {answers : List ℕ}
      → Standing (backup_calls calls) (BackupInUse calls InUse) backup-IsAllocator s xs
      → run_list todo xs ≡ some answers
      → run (backup_calls calls) todo s ≡ answers
  Stack-run_list todo s xs h e =
      run-run_list (backup_calls calls) (BackupInUse calls InUse) backup-IsAllocator todo s xs h e

  -- Where the underlying allocator obeys the laws of `IsAllocator`: `~Stack` calls its `dealloc` once
  -- for each block of the stack, the newest first, and once for the block that is kept, at the end (the
  -- newest block is kept where none was), and calls it no more; no block stays in use. One round more
  -- than the stack has blocks is enough.
  pub destroy-InUse :
      (fuel : ℕ) (s : Stack calls) (blocks xs : List ℕ)
      → Holds s.memory blocks s.index xs
      → BackupInUse calls InUse s.allocator blocks
      → length blocks < fuel
      → (destroy calls fuel s
          ≡ give_back calls (kept_last s.allocator.backup blocks) s.allocator.underlying_alloc)
        × InUse (destroy calls fuel s) []
  unfolding destroy Thin.dealloc Thin.dealloc_loop
  destroy-InUse fuel s blocks xs h u lt =
      let (_, rest) =
        dealloc-IsGivenBack (backup_calls calls) (BackupInUse calls InUse) backup-IsAllocator fuel s
          blocks xs h u lt in
      (
        ap (backup_release calls) (dealloc-each (backup_calls calls) fuel s.memory s.allocator h lt)
            ∙ each-kept_last calls s.allocator.backup s.allocator.underlying_alloc blocks,
        release-Kept _ _ rest,
      )
