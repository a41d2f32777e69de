-- ===== src/Rt/Object/Header.antt =====
-- The header word of an object (src/rt/object/object.h) and the functions that read and write it. A
-- pointer is a number, and one in a header is a multiple of `alignment`, the `ALIGNMENT` that the
-- allocator's smallest size gives; `ONE_RC` is the same number. `& MASK` is the remainder, and
-- an `|` of bits that a word lacks is a sum.
use verona.Prelude.{ℕ, ◌+◌, ◌-◌, ◌*◌, ◌/◌, ◌%◌, ◌^◌, Bool, ◌==◌}

-- `RegionMD`.
abbrev pub scc_ptr : ℕ
scc_ptr = 2

abbrev pub rc_class : ℕ
rc_class = 3

abbrev pub cown : ℕ
cown = 7

-- Unsigned words.
abbrev pub word : ℕ → ℕ
word n = n % 2 ^ 64

module _ (alignment : ℕ) where
  unfoldable pub get_class : ℕ → ℕ
  get_class bits = bits % alignment

  -- The pointer in a word, `bits & ~MASK`.
  unfoldable pub get_scc : ℕ → ℕ
  get_scc bits = bits / alignment * alignment

  unfoldable pub set_scc : ℕ → ℕ
  set_scc o = o + scc_ptr

  unfoldable pub make_scc : ℕ
  make_scc = rc_class + alignment

  unfoldable pub make_cown : ℕ
  make_cown = cown + alignment

  -- `ONE_RC` is added to and taken from the word by `fetch_add` and `fetch_sub`, which return what
  -- the word was; so do these.
  unfoldable pub fetch_add : ℕ → ℕ × ℕ
  fetch_add bits = (bits, word (bits + alignment))

  unfoldable pub fetch_sub : ℕ → ℕ × ℕ
  fetch_sub bits = (bits, word (bits + 2 ^ 64 - alignment))

  -- `incref`: whether the count was zero, and the new word.
  unfoldable pub incref : ℕ → Bool × ℕ
  unfolding fetch_add get_class
  incref bits = let (old, new) = fetch_add bits in (old == get_class new, new)

  -- `DONE_RC` of a cown.
  abbrev pub done_rc : ℕ
  done_rc = cown + alignment

-- `FINISHED_RC`.
abbrev pub finished_rc : ℕ
finished_rc = 2 ^ 63 + cown

unfoldable pub cown_zero_rc : ℕ → Bool
cown_zero_rc bits = bits == finished_rc
