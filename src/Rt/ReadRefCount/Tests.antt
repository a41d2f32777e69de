-- ===== src/Rt/ReadRefCount/Tests.antt =====
-- A run of the readers of a cown, and a concrete use of their property.
use verona.Prelude.{refl, true, false, arith}
use verona.Rt.ReadRefCount.Defs.{
  add_read, release_read, try_write_load, try_write_mark, Readers, new_readers, runs, seen, waits,
  writes_untried, acquires_asleep, adds_read, releases_read, loads, marks, Run, no_step, one_more,
}
use verona.Rt.ReadRefCount.Exclusion.{Counts, run-Counts}

-- A write waits for two reads, and the second of them to end is about to hand over.
abbrev last_reader : Readers
last_reader = record { count = 1; reads = 0; handing = true; phase = waits }

two_reads : Run new_readers last_reader
unfolding new_readers add_read release_read try_write_load try_write_mark
two_reads =
    let c0 : Readers = new_readers in
    let c1 : Readers = record { count = 2; reads = 1; handing = false; phase = runs } in
    let c2 : Readers = record { count = 4; reads = 2; handing = false; phase = runs } in
    let c3 : Readers = record { count = 4; reads = 2; handing = false; phase = seen } in
    let c4 : Readers = record { count = 5; reads = 2; handing = false; phase = waits } in
    let c5 : Readers = record { count = 3; reads = 1; handing = false; phase = waits } in
    one_more
      (one_more
        (one_more
          (one_more
            (one_more (one_more (no_step c0) (adds_read c0 refl (omega arith)))
              (adds_read c1 refl (omega arith)))
            (loads c2 refl))
          (marks c3 refl))
        (releases_read c4 1 refl))
      (releases_read c5 0 refl)

run-Counts_example : Counts 1 0 true waits
run-Counts_example = run-Counts two_reads

-- A write that `fast_send` let in beside a read.
untried_beside_read :
    Run new_readers (record { count = 2; reads = 1; handing = false; phase = writes_untried })
unfolding new_readers add_read
untried_beside_read =
    let c0 : Readers = new_readers in
    let c1 : Readers = record { count = 2; reads = 1; handing = false; phase = runs } in
    one_more (one_more (no_step c0) (adds_read c0 refl (omega arith))) (acquires_asleep c1 refl)
