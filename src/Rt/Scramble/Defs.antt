-- ===== src/Rt/Scramble/Defs.antt =====
-- The class `Scramble` of src/rt/ds/scramble.h, where a pointer has 64 bits. The keys, which `setup`
-- takes from a random generator (a parameter), are a list.
use Prim.Native.Nat.{bit_xor}
use verona.Prelude.{ℕ, zero, suc, ◌+◌, ◌*◌, ◌/◌, ◌%◌, ◌^◌, List, [], ◌∷◌}

-- The loop of `setup`, where `next` is the generator's, `uintptr_t` having 64 bits.
unfoldable pub draw_keys : {R : Type 0} → (R → ℕ × R) → ℕ → R → List ℕ × R
draw_keys next zero r = ([], r)
draw_keys next (suc rounds) r =
    let (key, r') = next r in
    let (keys, r'') = draw_keys next rounds r' in (key % 2 ^ 64 ∷ keys, r'')

-- The keys, and the generator after them.
unfoldable pub setup : {R : Type 0} → (R → ℕ × R) → R → List ℕ × R
unfolding draw_keys
setup next r = draw_keys next 8 r

-- A round of the loop of `perm` at `l` and `r`.
unfoldable pub feistel_round : ℕ → ℕ × ℕ → ℕ × ℕ
feistel_round key (l, r) = (bit_xor r (l * key % 2 ^ 64) % 2 ^ 32, l)

unfoldable pub rounds : List ℕ → ℕ × ℕ → ℕ × ℕ
rounds [] s = s
rounds (key ∷ keys) s = rounds keys (feistel_round key s)

-- `l + (r << PTR_HALF_SHIFT)`
unfoldable pub combine : ℕ × ℕ → ℕ
combine (l, r) = (l + r * 2 ^ 32 % 2 ^ 64) % 2 ^ 64

unfoldable pub perm : List ℕ → ℕ → ℕ
perm keys p = combine (rounds keys (p % 2 ^ 32, p / 2 ^ 32))
