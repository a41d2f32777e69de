-- ===== src/Rt/Stack/Tests.antt =====
-- Runs of the stack of src/rt/ds/stack.h over an allocator that counts, and concrete uses of its properties.
use verona.Prelude.{
  length, ℕ, zero, suc, ◌*◌, ◌≤◌, ◌≡◌, refl, sym, none, some, List, [], ◌∷◌, ◌++◌, arith,
}
use verona.Rt.Stack.Thin.{Allocator, write, null_index, push, forall, dealloc}
use verona.Rt.Stack.Holds.{IsNew, IsFresh, IsAllocator, Holds, bottom, first}
use verona.Rt.Stack.Refine.{
  Call, pushes, pops, run, run_list, Standing, push-Standing, run-run_list,
}
use verona.Rt.Stack.Visits.{forall-visits, dealloc-IsGivenBack}
use verona.Rt.Stack.Backup.{backup_calls, BackupInUse, Stack, destroy}
use verona.Rt.Stack.Keeps.{backup-IsAllocator, destroy-InUse}

-- The next block is behind the last one; none is used again. The state is the number of blocks handed out
-- and the blocks given back, the last one first.
abbrev counting : Allocator (ℕ × List ℕ)
counting = record {
  alloc = λ r. (64 * suc r.0, (suc r.0, r.1));
  dealloc = λ b r. (r.0, b ∷ r.1);
  junk = λ x. x;
}

abbrev CountingInUse : ℕ → List ℕ → Type 0
CountingInUse n [] = Unit
CountingInUse n (b ∷ blocks) = IsNew b blocks × (b ≤ 64 * n) × CountingInUse n blocks

next-IsFresh : (n : ℕ) (blocks : List ℕ) → CountingInUse n blocks → IsFresh (64 * suc n) blocks
next-IsFresh n [] h = tt
next-IsFresh n (b ∷ blocks) (new, le, h) = ((λ e. omega arith), next-IsFresh n blocks h)

later-InUse : (n : ℕ) (blocks : List ℕ) → CountingInUse n blocks → CountingInUse (suc n) blocks
later-InUse n [] h = tt
later-InUse n (b ∷ blocks) (new, le, h) = (new, omega arith, later-InUse n blocks h)

IsFresh-swap :
    (d : ℕ) (front : List ℕ) (b c : ℕ) (blocks : List ℕ)
    → IsFresh d (front ++ b ∷ c ∷ blocks)
    → IsFresh d (front ++ c ∷ b ∷ blocks)
IsFresh-swap d [] b c blocks (hb, (hc, h)) = (hc, (hb, h))
IsFresh-swap d (e ∷ front) b c blocks (he, h) = (he, IsFresh-swap d front b c blocks h)

InUse-swap :
    (n : ℕ) (front : List ℕ) (b c : ℕ) (blocks : List ℕ)
    → CountingInUse n (front ++ b ∷ c ∷ blocks)
    → CountingInUse n (front ++ c ∷ b ∷ blocks)
InUse-swap n [] b c blocks (nb, lb, (nc, lc, h)) = (
  record {
    aligned = nc.aligned;
    not_null = nc.not_null;
    fresh = ((λ e. nb.fresh.0 (sym e)), nc.fresh);
  },
  lc,
  (record { aligned = nb.aligned; not_null = nb.not_null; fresh = nb.fresh.1 }, lb, h),
)
InUse-swap n (d ∷ front) b c blocks (nd, ld, h) = (
  record {
    aligned = nd.aligned;
    not_null = nd.not_null;
    fresh = IsFresh-swap d front b c blocks nd.fresh;
  },
  ld,
  InUse-swap n front b c blocks h,
)

abbrev HandedOut : ℕ × List ℕ → List ℕ → Type 0
HandedOut r = CountingInUse r.0

counting-IsAllocator : IsAllocator counting HandedOut
counting-IsAllocator = record {
  InUse-IsNew = λ r b blocks h. h.0;
  alloc-InUse = λ r blocks h. (
    record {
      aligned = omega arith;
      not_null = λ e. omega arith;
      fresh = next-IsFresh r.0 blocks h;
    },
    omega arith,
    later-InUse r.0 blocks h,
  );
  dealloc-InUse = λ r b blocks h. h.2;
  swap-InUse = λ r. InUse-swap r.0;
}

abbrev start : Stack counting
start = record {
  index = null_index;
  memory = λ a. 0;
  allocator = record { backup = none; underlying_alloc = (0, []) };
}

abbrev Stands : Stack counting → List ℕ → Type 0
Stands =
    Standing (backup_calls counting) (BackupInUse counting HandedOut)
      (backup-IsAllocator counting HandedOut counting-IsAllocator)

start-Stands : Stands start []
start-Stands = ([], bottom, tt)

-- `n` calls of `push`.
abbrev many : ℕ → List Call → List Call
many zero rest = rest
many (suc n) rest = pushes n ∷ many n rest

-- 64 elements take two blocks; the last two calls stand on both sides of their boundary.
abbrev over_the_boundary : List Call
over_the_boundary = many 64 (pops ∷ pops ∷ [])

over_the_boundary_runs : run (backup_calls counting) over_the_boundary start ≡ 0 ∷ 1 ∷ []
unfolding run backup_calls
over_the_boundary_runs = refl

over_the_boundary_list : run_list over_the_boundary [] ≡ some (0 ∷ 1 ∷ [])
unfolding run_list
over_the_boundary_list = refl

-- One element.
abbrev one_up : Stack counting
unfolding push backup_calls
one_up = push (backup_calls counting) 7 start

one_up-Stands : Stands one_up (7 ∷ [])
unfolding one_up
one_up-Stands =
    push-Standing (backup_calls counting) (BackupInUse counting HandedOut)
      (backup-IsAllocator counting HandedOut counting-IsAllocator) 7 start [] start-Stands

run-run_list_example : run (backup_calls counting) over_the_boundary start ≡ 0 ∷ 1 ∷ []
run-run_list_example =
    run-run_list (backup_calls counting) (BackupInUse counting HandedOut)
      (backup-IsAllocator counting HandedOut counting-IsAllocator) over_the_boundary start []
      start-Stands over_the_boundary_list

forall-visits_example : forall 2 one_up ≡ 7 ∷ []
forall-visits_example =
    forall-visits (backup_calls counting) (BackupInUse counting HandedOut)
      (backup-IsAllocator counting HandedOut counting-IsAllocator) 2 one_up (7 ∷ []) one_up-Stands
      (omega arith)

dealloc-IsGivenBack_example :
    ((dealloc (backup_calls counting) (suc (length one_up-Stands.0)) one_up).0 ≡ one_up-Stands.0)
    × BackupInUse counting HandedOut
        (dealloc (backup_calls counting) (suc (length one_up-Stands.0)) one_up).1
        []
dealloc-IsGivenBack_example =
    dealloc-IsGivenBack (backup_calls counting) (BackupInUse counting HandedOut)
      (backup-IsAllocator counting HandedOut counting-IsAllocator) (suc (length one_up-Stands.0))
      one_up one_up-Stands.0 (7 ∷ []) one_up-Stands.1 one_up-Stands.2 (omega arith)

-- One element in the block at 64, and the block at 128 kept.
abbrev kept_one : Stack counting
kept_one = record {
  index = 65;
  memory = write (write (λ a. 0) 64 null_index) 65 7;
  allocator = record { backup = some 128; underlying_alloc = (2, []) };
}

kept_one-Holds : Holds kept_one.memory (64 ∷ []) 65 (7 ∷ [])
kept_one-Holds =
    first (record { aligned = refl; not_null = λ e. omega arith; fresh = tt }) refl refl refl bottom

kept_one-InUse : HandedOut (2, []) (128 ∷ 64 ∷ [])
kept_one-InUse = (
  record { aligned = refl; not_null = λ e. omega arith; fresh = ((λ e. omega arith), tt) },
  omega arith,
  (record { aligned = refl; not_null = λ e. omega arith; fresh = tt }, omega arith, tt),
)

-- The block of the stack is given back, then the block that was kept.
destroy-InUse_example :
    (destroy counting 2 kept_one ≡ (2, 128 ∷ 64 ∷ [])) × HandedOut (destroy counting 2 kept_one) []
destroy-InUse_example =
    destroy-InUse counting HandedOut counting-IsAllocator 2 kept_one (64 ∷ []) (7 ∷ [])
      kept_one-Holds kept_one-InUse (omega arith)
