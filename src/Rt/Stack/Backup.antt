-- ===== src/Rt/Stack/Backup.antt =====
-- `Stack` of src/rt/ds/stack.h, with its `BackupAlloc`.
use verona.Prelude.{ℕ, Option, none, some, List, ◌∷◌}
use verona.Rt.Stack.Thin as Thin
use verona.Rt.Stack.Thin.{Allocator, StackThin, Memory, null_index}

pub record BackupAlloc (A : Type 0) : Type 0 where
  pub backup : Option ℕ
  pub underlying_alloc : A

module _ {A : Type 0} (calls : Allocator A) where
  unfoldable pub backup_alloc : BackupAlloc A → ℕ × BackupAlloc A
  backup_alloc r = elim r.backup [
    | some b ↦ (b, record r { backup = none })
    | none ↦ (
      (calls.alloc r.underlying_alloc).0,
      record r { underlying_alloc = (calls.alloc r.underlying_alloc).1 },
    )
  ]

  unfoldable pub backup_dealloc : ℕ → BackupAlloc A → BackupAlloc A
  backup_dealloc b r = elim r.backup [
    | none ↦ record r { backup = some b }
    | some c ↦ record r { underlying_alloc = calls.dealloc b r.underlying_alloc }
  ]

  -- `~BackupAlloc`.
  unfoldable pub backup_release : BackupAlloc A → A
  backup_release r = elim r.backup [
    | none ↦ r.underlying_alloc
    | some b ↦ calls.dealloc b r.underlying_alloc
  ]

  -- The functions that `StackThin` is given.
  unfoldable pub backup_calls : Allocator (BackupAlloc A)
  unfolding backup_alloc backup_dealloc
  backup_calls = record { alloc = backup_alloc; dealloc = backup_dealloc; junk = calls.junk }

  abbrev pub Stack : Type 0
  Stack = StackThin (BackupAlloc A)

  -- `~Stack`: the state of the underlying allocator afterwards.
  unfoldable pub destroy : ℕ → Stack → A
  unfolding backup_calls backup_release
  destroy fuel s = backup_release (Thin.dealloc backup_calls fuel s).1

  module _ (InUse : A → List ℕ → Type 0) where
    -- The block that is kept counts as in use for the underlying allocator.
    abbrev pub BackupInUse : BackupAlloc A → List ℕ → Type 0
    BackupInUse r blocks = elim r.backup [
      | none ↦ InUse r.underlying_alloc blocks
      | some b ↦ InUse r.underlying_alloc (b ∷ blocks)
    ]
