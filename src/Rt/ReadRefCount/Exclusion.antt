-- ===== src/Rt/ReadRefCount/Exclusion.antt =====
-- Readers of a cown and a writer that `try_write` of src/rt/sched/cown.h let in exclude each other, and a
-- writer that waits is woken.
use verona.Prelude.{
  ℕ, suc, ◌+◌, ◌*◌, ◌^◌, ◌<◌, ◌≡◌, ◌⊎◌, inl, inr, refl, subst, Bool, true, false, ◌==◌, arith,
  Bool-cases,
}
use verona.Rt.ReadRefCount.Defs.{
  add_read, release_read, try_write_load, try_write_mark, try_write_clear, Phase, runs, seen, waits,
  clears, writes, writes_untried, Readers, new_readers, Step, adds_read, releases_read, hands_over,
  loads, marks, clears_mark, acquires_asleep, ends_untried, ends_write, Run, no_step, one_more,
}

-- What the count is in each phase. Where the thread waits, some read goes on, or a reader is
-- about to hand the cown over.
abbrev pub Counts : ℕ → ℕ → Bool → Phase → Type 0
Counts count reads handing runs = count ≡ 2 * reads × handing ≡ false
Counts count reads handing seen = count ≡ 2 * reads × handing ≡ false
Counts count reads handing waits =
    (count ≡ 2 * reads + 1) × ((0 < reads × handing ≡ false) ⊎ (reads ≡ 0 × handing ≡ true))
Counts count reads handing clears = count ≡ 1 × reads ≡ 0 × handing ≡ false
Counts count reads handing writes = count ≡ 0 × reads ≡ 0 × handing ≡ false
Counts count reads handing writes_untried = count ≡ 2 * reads × handing ≡ false

abbrev Small : ℕ → Type 0
Small reads = 2 * reads + 2 < 2 ^ 64

abbrev pub Inv : Readers → Type 0
Inv c = Counts c.count c.reads c.handing c.phase × Small c.reads

release-Counts :
    (count reads k : ℕ) (handing : Bool) (phase : Phase)
    → reads ≡ suc k
    → Small reads
    → Counts count reads handing phase
    → Counts (release_read count).0 k (release_read count).1 phase
unfolding release_read
release-Counts count reads k handing runs e small (c, h) = (omega arith, ground arith)
release-Counts count reads k handing seen e small (c, h) = (omega arith, ground arith)
release-Counts count reads k handing waits e small (c, h) = (
  omega arith,
  elim (Bool-cases (count == 3)) [
    | inl last ↦ inr (ground arith, last)
    | inr more ↦ inl (ground arith, more)
  ],
)
release-Counts count reads k handing clears e small (c, r, h) = absurd (omega arith)
release-Counts count reads k handing writes e small (c, r, h) = absurd (omega arith)
release-Counts count reads k handing writes_untried e small (c, h) = (omega arith, ground arith)

handing-Counts :
    (count reads : ℕ) (handing : Bool) (phase : Phase)
    → handing ≡ true
    → Counts count reads handing phase
    → reads ≡ 0
handing-Counts count reads handing runs t (c, f) = cc
handing-Counts count reads handing seen t (c, f) = cc
handing-Counts count reads handing waits t (c, inl (r, f)) = cc
handing-Counts count reads handing waits t (c, inr (r, h)) = r
handing-Counts count reads handing clears t (c, r, f) = r
handing-Counts count reads handing writes t (c, r, f) = r
handing-Counts count reads handing writes_untried t (c, f) = cc

-- What the invariant says in a phase that is known.
now : (c : Readers) {q : Phase} → Inv c → c.phase ≡ q → Counts c.count c.reads c.handing q
now c i p = subst (Counts c.count c.reads c.handing) p i.0

Step-Inv : {c d : Readers} → Step c d → Inv c → Inv d
unfolding add_read try_write_load try_write_mark try_write_clear
Step-Inv (adds_read c p low) i =
    let (same, f) = now c i p in let room = i.1 in rw p ((omega arith, f), omega arith)
Step-Inv (releases_read c k e) (i, small) =
    (release-Counts c.count c.reads k c.handing c.phase e small i, omega arith)
Step-Inv (hands_over c h) i =
    let none_left = handing-Counts c.count c.reads c.handing c.phase h i.0 in
    ((omega arith, refl), i.1)
Step-Inv (loads c p) i =
    let (same, f) = now c i p in
    elim (Bool-cases (c.count == 0)) [
      | inl e ↦ rw e ((ground arith, ground arith, f), i.1)
      | inr e ↦ rw e ((same, f), i.1)
    ]
Step-Inv (marks c p) i =
    let (same, f) = now c i p in
    let room = i.1 in
    elim (Bool-cases (c.count == 0)) [
      | inl e ↦ rw e ((ground arith, ground arith, f), i.1)
      | inr e ↦ rw e ((omega arith, inl (ground arith, f)), i.1)
    ]
Step-Inv (clears_mark c p) i = let (same, r, f) = now c i p in ((omega arith, r, f), i.1)
Step-Inv (acquires_asleep c p) i = (now c i p, i.1)
Step-Inv (ends_untried c p) i = (now c i p, i.1)
Step-Inv (ends_write c p) i = let (same, r, f) = now c i p in ((omega arith, f), i.1)

Run-Inv : {c d : Readers} → Run c d → Inv c → Inv d
Run-Inv (no_step c) i = i
Run-Inv (one_more r s) i = Step-Inv s (Run-Inv r i)

-- Whatever steps the threads take with a new cown: the count is twice the number of reads, and one more
-- while the mark of a pending write is in it; while a write goes on that `try_write` let in, no read goes
-- on and the count is 0 (this is not said of a write that `fast_send` let in without `try_write`); and
-- while the thread that has the cown waits for its readers, some read goes on or a reader is about to hand
-- the cown over.
pub run-Counts : {c : Readers} → Run new_readers c → Counts c.count c.reads c.handing c.phase
unfolding new_readers
run-Counts r = (Run-Inv r ((omega arith, refl), omega arith)).0
