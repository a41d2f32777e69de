-- ===== src/Rt/Stack/Thin.antt =====
-- `StackThin` of src/rt/ds/stack.h. An address counts words of the size of a pointer, so that a block
-- starts at a multiple of 64; memory is a function from addresses to words. `null_block` stands at the
-- address 0. Arithmetic on `T**` is arithmetic on addresses, and `uintptr_t` operations with the mask
-- are remainders by 64.
use verona.Prelude.{
  ℕ, zero, suc, ◌-◌, ◌%◌, Bool, true, false, not, ◌&&◌, List, [], ◌∷◌, ◌==◌, if◌then◌else◌,
}

abbrev pub Memory : Type 0
Memory = ℕ → ℕ

abbrev pub write : Memory → ℕ → ℕ → Memory
write memory address word = λ x. if x == address then word else memory x

-- What the template's parameter `Alloc` offers: a state, and the calls for one block.
-- `junk` is what stands in a block from when it is given back, a word for each address.
pub record Allocator (A : Type 0) : Type 0 where
  pub alloc : A → ℕ × A
  pub dealloc : ℕ → A → A
  pub junk : Memory

abbrev pub null_block : ℕ
null_block = 0

-- `&(null_block.data[STACK_COUNT - 1])`.
abbrev pub null_index : ℕ
null_index = 63

unfoldable pub get_block : ℕ → ℕ
get_block ptr = ptr - ptr % 64

unfoldable pub is_empty : ℕ → Bool
is_empty ptr = ptr % 64 == 0

unfoldable pub is_full : ℕ → Bool
is_full index = index % 64 == 63

-- The memory when the block has been given back, to the allocator or to `BackupAlloc`, which may keep it.
unfoldable pub forget : Memory → ℕ → Memory → Memory
unfolding get_block
forget junk block memory = λ x. if get_block x == block then junk x else memory x

-- The stack with the memory it stands in and the state of its allocator.
pub record StackThin (A : Type 0) : Type 0 where
  pub index : ℕ
  pub memory : Memory
  pub allocator : A

-- `StackThin()`.
unfoldable pub new_stack : {A : Type 0} → Memory → A → StackThin A
new_stack memory a = record { index = null_index; memory = memory; allocator = a }

unfoldable pub empty : {A : Type 0} → StackThin A → Bool
empty s = s.index == null_index

unfoldable pub peek : {A : Type 0} → StackThin A → ℕ
peek s = s.memory s.index

module _ {A : Type 0} (calls : Allocator A) where
  unfoldable pub push_slow : ℕ → StackThin A → StackThin A
  push_slow item s =
      let (block, rest) = calls.alloc s.allocator in
      record {
        index = suc block;
        memory = write (write s.memory block s.index) (suc block) item;
        allocator = rest;
      }

  unfoldable pub push : ℕ → StackThin A → StackThin A
  unfolding push_slow is_full
  push item s =
      if not (is_full s.index)
      then record s { index = suc s.index; memory = write s.memory (suc s.index) item }
      else push_slow item s

  unfoldable pub pop_slow : StackThin A → ℕ × StackThin A
  unfolding peek get_block forget
  pop_slow s =
      let block = get_block s.index in
      (
        peek s,
        record {
          index = s.memory block;
          memory = forget calls.junk block s.memory;
          allocator = calls.dealloc block s.allocator;
        },
      )

  unfoldable pub pop : StackThin A → ℕ × StackThin A
  unfolding pop_slow is_empty peek
  pop s =
      if not (is_empty (s.index - 1))
      then (peek s, record s { index = s.index - 1 })
      else pop_slow s

  -- The loop of `dealloc`: the blocks in the order in which they are given back.
  unfoldable pub dealloc_loop : ℕ → Memory → ℕ → A → List ℕ × A
  unfolding get_block forget
  dealloc_loop zero memory local_block a = ([], a)
  dealloc_loop (suc fuel) memory local_block a =
      let prev = get_block (memory local_block) in
      let rest =
        dealloc_loop fuel (forget calls.junk local_block memory) prev
          (calls.dealloc local_block a) in
      if local_block == null_block then ([], a) else (local_block ∷ rest.0, rest.1)

  unfoldable pub dealloc : ℕ → StackThin A → List ℕ × A
  unfolding dealloc_loop get_block
  dealloc fuel s = dealloc_loop fuel s.memory (get_block s.index) s.allocator

-- The two loops of `forall`: the words that `apply` is called with. `inside` tells that the inner loop
-- goes on, which does not look at `null_index`.
unfoldable pub forall_loop : ℕ → Memory → Bool → ℕ → List ℕ
unfolding is_empty get_block
forall_loop zero memory inside curr = []
forall_loop (suc fuel) memory inside curr =
    let further = forall_loop fuel memory true (curr - 1) in
    let block_done = forall_loop fuel memory false (memory (get_block (curr - 1))) in
    if not inside && curr == null_index
    then []
    else memory curr ∷ (if not (is_empty (curr - 1)) then further else block_done)

unfoldable pub forall : {A : Type 0} → ℕ → StackThin A → List ℕ
unfolding forall_loop
forall fuel s = forall_loop fuel s.memory false s.index
