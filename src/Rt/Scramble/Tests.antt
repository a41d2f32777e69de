-- ===== src/Rt/Scramble/Tests.antt =====
-- Pointers with eight keys.
use verona.Prelude.{ℕ, ◌+◌, ◌*◌, ◌^◌, ◌≡◌, ◌<◌, refl, List, [], ◌∷◌, arith}
use verona.Rt.Scramble.Defs.{feistel_round, rounds, combine, perm, setup, draw_keys}
use verona.Rt.Scramble.Inverse.{unperm, perm-IsPermutation}

abbrev keys : List ℕ
keys =
    0x9E3779B9 ∷ 0x7F4A7C15 ∷ 0x85EBCA6B ∷ 0xC2B2AE35 ∷ 0x27D4EB2F ∷ 0x165667B1 ∷ 0xFFFFFFFF ∷ 3
    ∷ []

perm-IsPermutation_example :
    (perm keys 0x7FFF12345678 < 2 ^ 64)
    × (unperm keys (perm keys 0x7FFF12345678) ≡ 0x7FFF12345678)
    × (unperm keys 0x7FFF12345678 < 2 ^ 64)
    × (perm keys (unperm keys 0x7FFF12345678) ≡ 0x7FFF12345678)
perm-IsPermutation_example = perm-IsPermutation keys 0x7FFF12345678 (omega arith)

-- Two rounds with the keys 3 and 5: (7, 9) becomes (28, 7), and that (139, 28).
small_perm : perm (3 ∷ 5 ∷ []) (7 + 9 * 2 ^ 32) ≡ 139 + 28 * 2 ^ 32
unfolding perm rounds feistel_round combine
small_perm = refl

-- A generator that counts by threes.
counted : (setup (λ (r : ℕ). (r, r + 3)) 5).0 ≡ 5 ∷ 8 ∷ 11 ∷ 14 ∷ 17 ∷ 20 ∷ 23 ∷ 26 ∷ []
unfolding setup draw_keys
counted = refl
