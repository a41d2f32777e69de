-- ===== src/Parser/Escaping/Bytes.antt =====
-- Bytes, their classes, and properties of all bytes by a table.
use Prim.Native.Nat.{bit_and}
use verona.Prelude.{
  subst, sym, inl, inr, Bool-cases, eq_of_==, ℕ, zero, suc, ◌-◌, ◌+◌, ◌<◌, ◌≡◌, refl, Bool, true,
  false, ◌&&◌, ◌||◌, List, [], ◌∷◌, arith, leb, ltb, ◌==◌, if◌then◌else◌,
}

abbrev pub Bytes : Type 0
Bytes = List ℕ

-- `s[i]`; it is read only where it is in range.
abbrev pub at : Bytes → ℕ → ℕ
at [] i = 0
at (c ∷ s) zero = c
at (c ∷ s) (suc i) = at s i

unfoldable pub is_binary : ℕ → Bool
is_binary c = (c == b'0') || (c == b'1')

unfoldable pub is_hex : ℕ → Bool
is_hex c = (leb b'0' c && leb c b'9') || (leb b'a' c && leb c b'f') || (leb b'A' c && leb c b'F')

unfoldable pub is_utf8cont : ℕ → Bool
is_utf8cont c = bit_and c 0xC0 == 0x80

unfoldable pub to_hex : ℕ → ℕ
to_hex c = if ltb c 10 then c + b'0' else c + b'A' - 10

unfoldable pub from_hex : ℕ → ℕ
from_hex c =
    if leb b'0' c && leb c b'9'
    then c - b'0'
    else if leb b'a' c && leb c b'f'
    then c - b'a' + 10
    else if leb b'A' c && leb c b'F'
    then c - b'A' + 10
    else 0

-- The tests for a byte that starts a sequence of one, two, three and four bytes.
unfoldable pub is_one : ℕ → Bool
is_one c = bit_and c 0x80 == 0x00

unfoldable pub is_two : ℕ → Bool
is_two c = bit_and c 0xE0 == 0xC0

unfoldable pub is_three : ℕ → Bool
is_three c = bit_and c 0xF0 == 0xE0

unfoldable pub is_four : ℕ → Bool
is_four c = bit_and c 0xF8 == 0xF0

-- A table of the values of a test below a bound.
unfoldable pub table : (ℕ → Bool) → ℕ → Bool
table test zero = true
table test (suc bound) = if test bound then table test bound else false

table-later :
    (test : ℕ → Bool) (bound : ℕ) → table test (suc bound) ≡ true → table test bound ≡ true
unfolding table
table-later test bound passed = ground arith

table-last : (test : ℕ → Bool) (bound : ℕ) → table test (suc bound) ≡ true → test bound ≡ true
unfolding table
table-last test bound passed = ground arith

pub table_lookup :
    (test : ℕ → Bool) {bound : ℕ} → table test bound ≡ true → {c : ℕ} → c < bound → test c ≡ true
table_lookup test {bound = zero} passed lt = absurd (omega arith)
table_lookup test {bound = suc bound} passed {c} lt = elim (Bool-cases (c == bound)) [
  | inl here ↦
      subst (λ x. test x ≡ true) (sym (eq_of_== c bound here)) (table-last test bound passed)
  | inr below ↦ table_lookup test (table-later test bound passed) (ground arith)
]

abbrev iff : Bool → Bool → Bool
iff true b = b
iff false true = false
iff false false = true

iff_eq : (a b : Bool) → iff a b ≡ true → a ≡ b
iff_eq a b h = ground arith

-- The tests by ranges.
one_table : table (λ c. iff (is_one c) (ltb c 0x80)) 256 ≡ true
unfolding table is_one
one_table = refl

two_table : table (λ c. iff (is_two c) (leb 0xC0 c && ltb c 0xE0)) 256 ≡ true
unfolding table is_two
two_table = refl

three_table : table (λ c. iff (is_three c) (leb 0xE0 c && ltb c 0xF0)) 256 ≡ true
unfolding table is_three
three_table = refl

four_table : table (λ c. iff (is_four c) (leb 0xF0 c && ltb c 0xF8)) 256 ≡ true
unfolding table is_four
four_table = refl

cont_table : table (λ c. iff (is_utf8cont c) (leb 0x80 c && ltb c 0xC0)) 256 ≡ true
unfolding table is_utf8cont
cont_table = refl

pub is_one_lem : (c : ℕ) → c < 256 → is_one c ≡ ltb c 0x80
is_one_lem c h = iff_eq _ _ (table_lookup _ one_table h)

pub is_two_lem : (c : ℕ) → c < 256 → is_two c ≡ (leb 0xC0 c && ltb c 0xE0)
is_two_lem c h = iff_eq _ _ (table_lookup _ two_table h)

pub is_three_lem : (c : ℕ) → c < 256 → is_three c ≡ (leb 0xE0 c && ltb c 0xF0)
is_three_lem c h = iff_eq _ _ (table_lookup _ three_table h)

pub is_four_lem : (c : ℕ) → c < 256 → is_four c ≡ (leb 0xF0 c && ltb c 0xF8)
is_four_lem c h = iff_eq _ _ (table_lookup _ four_table h)

pub is_utf8cont_lem : (c : ℕ) → c < 256 → is_utf8cont c ≡ (leb 0x80 c && ltb c 0xC0)
is_utf8cont_lem c h = iff_eq _ _ (table_lookup _ cont_table h)
