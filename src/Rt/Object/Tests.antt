-- ===== src/Rt/Object/Tests.antt =====
-- Runs of a cown's count, and concrete uses of its properties.
use verona.Prelude.{◌*◌, ℕ, ◌+◌, ◌<◌, ◌≡◌, ◌⊎◌, refl, ◌==◌, ◌≤◌, some, if◌then◌else◌, arith}
use verona.Rt.Object.Header.{incref, rc_class, get_class, get_scc, finished_rc}
use verona.Rt.Object.Cown.{
  Cown, new_cown, decref_cown, decref_cown_zero, acquire_strong_from_weak, acquire_failed,
  decref_returns, acquire_returns, decrements, decides, acquires, fails, Run, no_step, one_more,
}
use verona.Rt.Object.Shared.{
  SharedRun, goes_on, begins, shares, Shared, new_shared, decref_load, decref_sub, returns, loads,
  subtracts, run-freed_once,
}
use verona.Rt.Object.Root.{Headers, root_and_class, Root, is_root, points, root_and_class-Found}
use verona.Rt.Object.Counts.{run-one_finishes}

-- The objects 16, 32 and 48 point on to 64, which has a reference count.
abbrev chain : Headers
chain o =
    if o == 16
    then 34
    else if o == 32
    then 50
    else if o == 48
    then 66
    else if o == 64
    then 19
    else 0

from_32 : Root 16 chain 2 32 64
unfolding get_class get_scc
from_32 = points 32 1 64 refl (points 48 0 64 refl (is_root 64 refl))

from_16 : Root 16 chain 3 16 64
unfolding get_class get_scc
from_16 = points 16 2 64 refl from_32

root_and_class-Found_example :
    (h' : Headers) × (root_and_class 16 4 chain 16 ≡ some (64, get_class 16 19, h'))
    × (m' : ℕ) × (m' ≤ 2)
    × Root 16 h' m' 32 64
root_and_class-Found_example =
    root_and_class-Found 16 (omega arith) 4 chain 3 16 64 2 32 64 from_16 (omega arith) from_32

-- The last reference is dropped, a weak reference is promoted before the zero is decided on, and
-- dropped again; one of the two calls that decide then returns true, and a promotion fails.
abbrev last_cown : Cown
last_cown = record { rc = finished_rc; strong = 0; deciding = 0; failing = 0; finished = 1 }

full_run : Run 16 (new_cown 16) last_cown
unfolding new_cown decref_cown decref_cown_zero acquire_strong_from_weak acquire_failed
    decref_returns acquire_returns
full_run =
    let c0 : Cown = new_cown 16 in
    let c1 : Cown = record { rc = 7; strong = 0; deciding = 1; failing = 0; finished = 0 } in
    let c2 : Cown = record { rc = 23; strong = 1; deciding = 1; failing = 0; finished = 0 } in
    let c3 : Cown = record { rc = 7; strong = 0; deciding = 2; failing = 0; finished = 0 } in
    let c4 : Cown = record {
      rc = finished_rc;
      strong = 0;
      deciding = 1;
      failing = 0;
      finished = 1;
    } in
    let c5 : Cown = record {
      rc = finished_rc;
      strong = 0;
      deciding = 0;
      failing = 0;
      finished = 1;
    } in
    let c6 : Cown = record {
      rc = finished_rc + 16;
      strong = 0;
      deciding = 0;
      failing = 1;
      finished = 1;
    } in
    one_more
      (one_more
        (one_more
          (one_more
            (one_more
              (one_more (one_more (no_step c0) (decrements c0 0 refl))
                (acquires c1 (omega arith) (omega arith)))
              (decrements c2 0 refl))
            (decides c3 1 refl))
          (decides c4 0 refl))
        (acquires c5 (omega arith) (omega arith)))
      (fails c6 0 refl)

run-one_finishes_example :
    (last_cown.finished ≡ 0 × (0 < last_cown.strong ⊎ 0 < last_cown.deciding))
    ⊎ (last_cown.finished ≡ 1 × last_cown.strong ≡ 0)
run-one_finishes_example = run-one_finishes 16 (omega arith) (omega arith) full_run

-- Two references are dropped: both calls load the word before one of them subtracts.
abbrev gone : Shared
gone = record { rc = 3; held = 0; loaded = 0; freed = 1 }

drop_run : SharedRun 16 (new_shared 16) gone
unfolding new_shared incref decref_load decref_sub returns
drop_run =
    let s0 : Shared = new_shared 16 in
    let s1 : Shared = record { rc = 35; held = 2; loaded = 0; freed = 0 } in
    let s2 : Shared = record { rc = 35; held = 1; loaded = 1; freed = 0 } in
    let s3 : Shared = record { rc = 35; held = 0; loaded = 2; freed = 0 } in
    let s4 : Shared = record { rc = 19; held = 0; loaded = 1; freed = 0 } in
    goes_on
      (goes_on
        (goes_on
          (goes_on (goes_on (begins s0) (shares s0 (omega arith) (omega arith))) (loads s1 1 refl))
          (loads s2 0 refl))
        (subtracts s3 1 refl))
      (subtracts s4 0 refl)

run-freed_once_example :
    (gone.freed ≡ 0
      × (0 < gone.held + gone.loaded)
      × (gone.rc ≡ rc_class + 16 * (gone.held + gone.loaded)))
    ⊎ (gone.freed ≡ 1 × gone.held + gone.loaded ≡ 0)
run-freed_once_example = run-freed_once 16 (omega arith) (omega arith) drop_run
