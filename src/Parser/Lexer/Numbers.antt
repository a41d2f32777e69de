-- ===== src/Parser/Lexer/Numbers.antt =====
-- `consume_number` of src/parser/lexer.cc.
use verona.Prelude.{ℕ, suc, ◌-◌, not, ◌||◌, [], ◌∷◌, ◌==◌, if◌then◌else◌, drop}
use verona.Parser.Escaping.Bytes.{Bytes, at}
use verona.Parser.Lexer.Tokens.{TokenKind, token, back, invalid, int, float, hex, binary}
use verona.Parser.Lexer.Classes.{is_digit, is_hex, is_binary}
use verona.Parser.Lexer.Symbols.{Lexed}

pub data NumberState : Type 0 where
  leading_zero int_digits has_dot float_digits : NumberState
  exponent1 exponent2 exponent3 hex_digits binary_digits : NumberState

-- A round of the loop goes on in a state, or ends in one after it moved `i` back.
pub data Turn : Type 0 where
  goes : NumberState → Turn
  stops : NumberState → ℕ → Turn

unfoldable pub number_step : NumberState → ℕ → Turn
number_step leading_zero c =
    if c == b'x'
    then goes hex_digits
    else if c == b'b'
    then goes binary_digits
    else if c == b'.'
    then goes float_digits
    else if is_digit c
    then goes int_digits
    else stops leading_zero 0
number_step int_digits c =
    if c == b'.'
    then goes has_dot
    else if not (is_digit c)
    then stops int_digits 0
    else goes int_digits
number_step has_dot c = if is_digit c then goes float_digits else stops int_digits 1
number_step float_digits c =
    if c == b'e'
    then goes exponent1
    else if not (is_digit c)
    then stops float_digits 0
    else goes float_digits
number_step exponent1 c =
    if (c == b'-') || (c == b'+')
    then goes exponent2
    else if is_digit c
    then goes exponent3
    else stops float_digits 1
number_step exponent2 c = if is_digit c then goes exponent3 else stops float_digits 2
number_step exponent3 c = if not (is_digit c) then stops exponent3 0 else goes exponent3
number_step hex_digits c = if not (is_hex c) then stops hex_digits 0 else goes hex_digits
number_step binary_digits c =
    if not (is_binary c) then stops binary_digits 0 else goes binary_digits

-- The state and the index with which the loop is left.
unfoldable pub number_loop : NumberState → Bytes → ℕ → NumberState × ℕ
unfolding number_step
number_loop state [] i = (state, suc i)
number_loop state (c ∷ s) i = elim (number_step state c) [
  | goes after ↦ number_loop after s (suc i)
  | stops after k ↦ (after, suc i - k)
]

unfoldable pub number_kind : NumberState → TokenKind
number_kind leading_zero = int
number_kind int_digits = int
number_kind float_digits = float
number_kind exponent3 = float
number_kind hex_digits = hex
number_kind binary_digits = binary
number_kind _ = invalid

unfoldable pub consume_number : Bytes → ℕ → Lexed
unfolding number_loop number_kind
consume_number contents i =
    let state = if at contents i == b'0' then leading_zero else int_digits in
    let (last, j) = number_loop state (drop (suc i) contents) i in
    (token (number_kind last) i (back j 1), j)
