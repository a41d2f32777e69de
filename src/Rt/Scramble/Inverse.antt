-- ===== src/Rt/Scramble/Inverse.antt =====
-- The inverse of `Scramble::perm`, src/rt/ds/scramble.h.
use Prim.Native.Nat.{bit_xor}
use verona.Prelude.{ℕ, ◌+◌, ◌*◌, ◌/◌, ◌%◌, ◌^◌, ◌<◌, ◌≡◌, ap, refl, ◌∙◌, List, [], ◌∷◌, arith}
use verona.Rt.Scramble.Defs.{feistel_round, rounds, combine, perm}
use verona.Rt.Scramble.Digits.{xor_twice}

-- The rounds taken back, the last one first.
unfoldable pub unround : ℕ → ℕ × ℕ → ℕ × ℕ
unround key (l, r) = (r, bit_xor l (r * key % 2 ^ 64) % 2 ^ 32)

unfoldable pub unrounds : List ℕ → ℕ × ℕ → ℕ × ℕ
unrounds [] s = s
unrounds (key ∷ keys) s = unround key (unrounds keys s)

unfoldable pub unperm : List ℕ → ℕ → ℕ
unperm keys q = combine (unrounds keys (q % 2 ^ 32, q / 2 ^ 32))

abbrev pub AreHalves : ℕ × ℕ → Type 0
AreHalves (l, r) = (l < 2 ^ 32) × (r < 2 ^ 32)

feistel_round-AreHalves : (key : ℕ) (s : ℕ × ℕ) → AreHalves s → AreHalves (feistel_round key s)
unfolding feistel_round
feistel_round-AreHalves key (l, r) h = (omega arith, h.0)

unround-AreHalves : (key : ℕ) (s : ℕ × ℕ) → AreHalves s → AreHalves (unround key s)
unfolding unround
unround-AreHalves key (l, r) h = (h.1, omega arith)

rounds-AreHalves : (keys : List ℕ) (s : ℕ × ℕ) → AreHalves s → AreHalves (rounds keys s)
unfolding rounds
rounds-AreHalves [] s h = h
rounds-AreHalves (key ∷ keys) s h =
    rounds-AreHalves keys (feistel_round key s) (feistel_round-AreHalves key s h)

unrounds-AreHalves : (keys : List ℕ) (s : ℕ × ℕ) → AreHalves s → AreHalves (unrounds keys s)
unfolding unrounds
unrounds-AreHalves [] s h = h
unrounds-AreHalves (key ∷ keys) s h =
    unround-AreHalves key (unrounds keys s) (unrounds-AreHalves keys s h)

unround-feistel_round : (key : ℕ) (s : ℕ × ℕ) → AreHalves s → unround key (feistel_round key s) ≡ s
unfolding feistel_round unround
unround-feistel_round key (l, r) h = ap (λ c. (l, c)) (xor_twice 32 r (l * key % 2 ^ 64) h.1)

feistel_round-unround : (key : ℕ) (s : ℕ × ℕ) → AreHalves s → feistel_round key (unround key s) ≡ s
unfolding feistel_round unround
feistel_round-unround key (l, r) h = ap (λ c. (c, r)) (xor_twice 32 l (r * key % 2 ^ 64) h.0)

unrounds-rounds : (keys : List ℕ) (s : ℕ × ℕ) → AreHalves s → unrounds keys (rounds keys s) ≡ s
unfolding rounds unrounds
unrounds-rounds [] s h = refl
unrounds-rounds (key ∷ keys) s h =
    ap (unround key) (unrounds-rounds keys (feistel_round key s) (feistel_round-AreHalves key s h))
    ∙ unround-feistel_round key s h

rounds-unrounds : (keys : List ℕ) (s : ℕ × ℕ) → AreHalves s → rounds keys (unrounds keys s) ≡ s
unfolding rounds unrounds
rounds-unrounds [] s h = refl
rounds-unrounds (key ∷ keys) s h =
    ap (rounds keys) (feistel_round-unround key (unrounds keys s) (unrounds-AreHalves keys s h))
    ∙ rounds-unrounds keys s h

-- A number below 2^64 has two halves, which make it up again.
halves-AreHalves : (p : ℕ) → p < 2 ^ 64 → AreHalves (p % 2 ^ 32, p / 2 ^ 32)
halves-AreHalves p lt = (omega arith, omega arith)

combine-halves : (p : ℕ) → p < 2 ^ 64 → combine (p % 2 ^ 32, p / 2 ^ 32) ≡ p
unfolding combine
combine-halves p lt = omega arith

halves-combine : (s : ℕ × ℕ) → AreHalves s → (combine s % 2 ^ 32, combine s / 2 ^ 32) ≡ s
unfolding combine
halves-combine (l, r) h =
    let low : (l + r * 2 ^ 32 % 2 ^ 64) % 2 ^ 64 % 2 ^ 32 ≡ l = omega (arith, h.0, h.1) in
    let high : (l + r * 2 ^ 32 % 2 ^ 64) % 2 ^ 64 / 2 ^ 32 ≡ r = omega (arith, h.0, h.1) in
    λ i. (low i, high i)

combine-lt : (s : ℕ × ℕ) → combine s < 2 ^ 64
unfolding combine
combine-lt (l, r) = omega arith

-- For any keys, `perm` is a permutation of the numbers below 2^64: what it makes of one is such a
-- number, `unperm` takes it back, and what `unperm` makes of one is such a number that `perm` takes back.
pub perm-IsPermutation :
    (keys : List ℕ) (p : ℕ)
    → p < 2 ^ 64
    → (perm keys p < 2 ^ 64)
      × (unperm keys (perm keys p) ≡ p)
      × (unperm keys p < 2 ^ 64)
      × (perm keys (unperm keys p) ≡ p)
unfolding perm unperm
perm-IsPermutation keys p lt =
    let s : ℕ × ℕ = (p % 2 ^ 32, p / 2 ^ 32) in
    let h = halves-AreHalves p lt in
    let there = halves-combine (rounds keys s) (rounds-AreHalves keys s h) in
    let back = halves-combine (unrounds keys s) (unrounds-AreHalves keys s h) in
    (
      combine-lt (rounds keys s),
      ap (λ c. combine (unrounds keys c)) there
          ∙ ap combine (unrounds-rounds keys s h)
          ∙ combine-halves p lt,
      combine-lt (unrounds keys s),
      ap (λ c. combine (rounds keys c)) back
          ∙ ap combine (rounds-unrounds keys s h)
          ∙ combine-halves p lt,
    )
