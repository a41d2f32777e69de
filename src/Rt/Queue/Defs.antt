-- ===== src/Rt/Queue/Defs.antt =====
-- The class `Queue` of src/rt/ds/queue.h. An element is its address, 0 is the null pointer, and `next` is
-- the field of that name of the elements, in the memory that the queue shares with its clients.
use verona.Prelude.{ℕ, zero, suc, Bool, ◌==◌, if◌then◌else◌, Option, none, some, update}

pub record Queue : Type 0 where
  pub first : ℕ
  pub last : ℕ
  pub next : ℕ → ℕ

unfoldable pub is_empty : Queue → Bool
is_empty q = q.first == 0

unfoldable pub enqueue : ℕ → Queue → Queue
unfolding is_empty
enqueue n q =
    if is_empty q
    then record q { last = n; first = n }
    else record q { next = update q.next q.last n; last = n }

-- `none` stands for the assertion that the queue is not empty.
unfoldable pub dequeue : Queue → Option (ℕ × Queue)
unfolding is_empty
dequeue q =
    if is_empty q
    then none
    else if q.first == q.last
    then some (q.first, record q { first = 0; last = 0 })
    else some (q.first, record q { first = q.next q.first })

-- The loop of `length` from `p` on, with fuel.
unfoldable pub count_links : ℕ → (ℕ → ℕ) → ℕ → ℕ → ℕ → Option ℕ
count_links zero next last p len = none
count_links (suc fuel) next last p len =
    let rest = count_links fuel next last (next p) (suc len) in if p == last then some len else rest

unfoldable pub length_of : ℕ → Queue → Option ℕ
unfolding count_links
length_of fuel q = if q.first == 0 then some 0 else count_links fuel q.next q.last q.first 1
