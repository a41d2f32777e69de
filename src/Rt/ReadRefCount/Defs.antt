-- ===== src/Rt/ReadRefCount/Defs.antt =====
-- `ReadRefCount` of src/rt/sched/cown.h: its functions, cut in parts of one atomic access each, and the
-- threads that call them as steps in any order.
use verona.Prelude.{ℕ, suc, ◌+◌, ◌*◌, ◌%◌, ◌^◌, ◌-◌, ◌<◌, ◌≡◌, Bool, true, false, not, ◌==◌}

abbrev pub size_t : ℕ → ℕ
size_t n = n % 2 ^ 64

unfoldable pub add_read : ℕ → ℕ
add_read count = size_t (count + 2)

-- `release_read` up to its test: the new count, and whether this was the last reader with a writer
-- waiting. If it was, the count is set to 0 in a further step.
unfoldable pub release_read : ℕ → ℕ × Bool
release_read count = (size_t (count + 2 ^ 64 - 2), count == 3)

-- `try_write`: its load, whether a write is possible at once; the mark of a pending write, with the new
-- count and whether readers are left; and the mark taken back.
unfoldable pub try_write_load : ℕ → Bool
try_write_load count = count == 0

unfoldable pub try_write_mark : ℕ → ℕ × Bool
try_write_mark count = (size_t (count + 1), not (count == 0))

unfoldable pub try_write_clear : ℕ → ℕ
try_write_clear count = size_t (count + 2 ^ 64 - 1)

-- What the thread that has the cown is at: it takes messages, it has seen readers in `try_write`, it
-- has left the cown to its readers, it takes its mark back, it writes, or it writes and was let in by
-- `fast_send`. Only one thread has the cown.
pub data Phase : Type 0 where
  runs seen waits clears writes writes_untried : Phase

-- The count, the reads that go on, whether a reader is about to set the count to 0, and the phase.
pub record Readers : Type 0 where
  pub count : ℕ
  pub reads : ℕ
  pub handing : Bool
  pub phase : Phase

unfoldable pub new_readers : Readers
new_readers = record { count = 0; reads = 0; handing = false; phase = runs }

abbrev pub decide : Bool → Phase → Phase → Phase
decide true p q = p
decide false p q = q

-- A reader's return schedules the cown again where a writer waits; then it runs. `fast_send` has a cown
-- that it finds asleep, and lets a write in without `try_write`.
pub data Step : Readers → Readers → Type 0 where
  adds_read :
      (c : Readers)
      → c.phase ≡ runs
      → 2 * c.reads + 4 < 2 ^ 64
      → Step c (record c { count = add_read c.count; reads = suc c.reads })
  releases_read :
      (c : Readers) (k : ℕ)
      → c.reads ≡ suc k
      → Step c (record c {
        count = (release_read c.count).0;
        reads = k;
        handing = (release_read c.count).1;
      })
  hands_over :
      (c : Readers)
      → c.handing ≡ true
      → Step c (record c { count = 0; handing = false; phase = runs })
  loads :
      (c : Readers)
      → c.phase ≡ runs
      → Step c (record c { phase = decide (try_write_load c.count) writes seen })
  marks :
      (c : Readers)
      → c.phase ≡ seen
      → Step c (record c {
        count = (try_write_mark c.count).0;
        phase = decide (try_write_mark c.count).1 waits clears;
      })
  clears_mark :
      (c : Readers)
      → c.phase ≡ clears
      → Step c (record c { count = try_write_clear c.count; phase = writes })
  acquires_asleep : (c : Readers) → c.phase ≡ runs → Step c (record c { phase = writes_untried })
  ends_untried : (c : Readers) → c.phase ≡ writes_untried → Step c (record c { phase = runs })
  ends_write : (c : Readers) → c.phase ≡ writes → Step c (record c { phase = runs })

pub data Run : Readers → Readers → Type 0 where
  no_step : (c : Readers) → Run c c
  one_more : {c d e : Readers} → Run c d → Step d e → Run c e
