-- ===== src/Rt/Scramble/Digits.antt =====
-- The exclusive or on binary digits.
use Prim.Native.Nat.{bit_xor, digits, differ, bit_xor-bitwise}
use native.Mathlib.Nat.{mul-add-mod_self_left, mod-eq_of_lt, mod-lt}
use native.Mathlib.Omega.{div_any}
use verona.Prelude.{
  two_pow, ℕ, zero, suc, ◌+◌, ◌*◌, ◌/◌, ◌%◌, ◌^◌, ◌≤◌, ◌<◌, ◌≡◌, ap, sym, refl, ◌∙◌, arith,
}

abbrev xor_digits : ℕ → ℕ → ℕ → ℕ
xor_digits n a b = digits (λ c. c) differ n a b

-- More fuel than digits changes nothing.
xor_digits-enough : (n m a b : ℕ) → a ≤ n → a ≤ m → xor_digits n a b ≡ xor_digits m a b
xor_digits-enough zero zero a b p q = refl
xor_digits-enough zero (suc m) zero b p q = refl
xor_digits-enough (suc n) zero zero b p q = refl
xor_digits-enough (suc n) (suc m) zero b p q = refl
xor_digits-enough zero (suc m) (suc a) b p q = absurd (omega arith)
xor_digits-enough (suc n) zero (suc a) b p q = absurd (omega arith)
xor_digits-enough (suc n) (suc m) (suc a) b p q =
    ap (λ c. c * 2 + differ (suc a % 2) (b % 2))
      (xor_digits-enough n m (suc a / 2) (b / 2) (omega arith) (omega arith))

zero-xor : (b : ℕ) → bit_xor 0 b ≡ b
zero-xor b = bit_xor-bitwise 0 b

pub xor_halves : (a b : ℕ) → bit_xor a b ≡ bit_xor (a / 2) (b / 2) * 2 + differ (a % 2) (b % 2)
xor_halves zero b = omega (arith, zero-xor b, zero-xor (b / 2))
xor_halves (suc a) b =
    (λ i. bit_xor-bitwise (suc a) b i)
    ∙ ap (λ c. c * 2 + differ (suc a % 2) (b % 2))
        (xor_digits-enough a (suc a / 2) (suc a / 2) (b / 2) (omega arith) (omega arith))
    ∙ sym
        (ap (λ c. c * 2 + differ (suc a % 2) (b % 2)) (λ i. bit_xor-bitwise (suc a / 2) (b / 2) i))

differ-lt : (a b : ℕ) → a < 2 → b < 2 → differ a b < 2
differ-lt zero b p q = q
differ-lt (suc zero) zero p q = omega arith
differ-lt (suc zero) (suc zero) p q = omega arith
differ-lt (suc (suc a)) b p q = absurd (omega arith)
differ-lt (suc zero) (suc (suc b)) p q = absurd (omega arith)

differ_twice : (a b : ℕ) → a < 2 → b < 2 → differ (differ a b) b ≡ a
differ_twice zero zero p q = refl
differ_twice zero (suc zero) p q = refl
differ_twice (suc zero) zero p q = refl
differ_twice (suc zero) (suc zero) p q = refl
differ_twice (suc (suc a)) b p q = absurd (omega arith)
differ_twice zero (suc (suc b)) p q = absurd (omega arith)
differ_twice (suc zero) (suc (suc b)) p q = absurd (omega arith)

-- The remainder by an even number has the lowest digit of the number.
mod_double : (y d m : ℕ) → 0 < m → d < 2 → (y * 2 + d) % (m * 2) ≡ y % m * 2 + d
mod_double y d m pos lt =
    let e : y * 2 + d ≡ m * 2 * (y / m) + (y % m * 2 + d) = omega (arith, div_any y m) in
    ap (λ c. c % (m * 2)) e
    ∙ mul-add-mod_self_left (m * 2) (y / m) (y % m * 2 + d)
    ∙ mod-eq_of_lt (omega (arith, mod-lt y pos))

xor_mod :
    (k a b : ℕ)
    → bit_xor a b % 2 ^ suc k ≡ bit_xor (a / 2) (b / 2) % 2 ^ k * 2 + differ (a % 2) (b % 2)
xor_mod k a b =
    let next_pow : 2 ^ suc k ≡ 2 ^ k * 2 = omega arith in
    ap (λ c. c % 2 ^ suc k) (xor_halves a b)
    ∙ ap (λ m. (bit_xor (a / 2) (b / 2) * 2 + differ (a % 2) (b % 2)) % m) next_pow
    ∙ mod_double (bit_xor (a / 2) (b / 2)) (differ (a % 2) (b % 2)) (2 ^ k) (two_pow k)
        (differ-lt (a % 2) (b % 2) (omega arith) (omega arith))

-- What is added twice by the exclusive or leaves the low `k` digits of a number.
pub xor_twice : (k r b : ℕ) → r < 2 ^ k → bit_xor (bit_xor r b % 2 ^ k) b % 2 ^ k ≡ r
xor_twice zero r b lt = omega arith
xor_twice (suc k) r b lt =
    let e = differ (r % 2) (b % 2) in
    let y = bit_xor (r / 2) (b / 2) % 2 ^ k in
    let z = bit_xor r b % 2 ^ suc k in
    let small : e < 2 = differ-lt (r % 2) (b % 2) (omega arith) (omega arith) in
    let zs : z ≡ y * 2 + e = xor_mod k r b in
    let high : z / 2 ≡ y = omega arith in
    let low : z % 2 ≡ e = omega arith in
    let rest : bit_xor y (b / 2) % 2 ^ k ≡ r / 2 = xor_twice k (r / 2) (b / 2) (omega arith) in
    let digit : differ e (b % 2) ≡ r % 2 =
      differ_twice (r % 2) (b % 2) (omega arith) (omega arith) in
    xor_mod k z b ∙ rw (high, low, rest, digit) (omega arith)
