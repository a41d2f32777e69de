-- ===== src/Parser/Escaping/Escape.antt =====
-- `escape` of src/parser/escaping.cc.
use Prim.Native.Nat.{bit_and}
use verona.Prelude.{
  ℕ, zero, suc, ◌/◌, ◌^◌, ◌&&◌, Option, none, some, [], ◌∷◌, ◌++◌, leb, ◌==◌, if◌then◌else◌,
}
use verona.Parser.Escaping.Bytes.{Bytes, to_hex, is_two, is_three, is_four}

-- The letter for a byte that has an escape of its own.
unfoldable pub letter_of : ℕ → Option ℕ
letter_of c =
    if c == 0x27
    then some 0x27
    else if c == 0x22
    then some 0x22
    else if c == 0x5C
    then some 0x5C
    else if c == 0x07
    then some b'a'
    else if c == 0x08
    then some b'b'
    else if c == 0x1B
    then some b'e'
    else if c == 0x0C
    then some b'f'
    else if c == 0x0A
    then some b'n'
    else if c == 0x0D
    then some b'r'
    else if c == 0x09
    then some b't'
    else if c == 0x0B
    then some b'v'
    else if c == 0x00
    then some b'0'
    else none

-- The `default` case: what is written for `c` itself, and how many of the next bytes `substr` copies.
unfoldable pub escape_default : ℕ → Bytes × ℕ
unfolding to_hex is_two is_three is_four
escape_default c =
    if leb 0x20 c && leb c 0x7E
    then (c ∷ [], 0)
    else if leb c 0x7F
    then (0x5C ∷ b'x' ∷ to_hex (c / 2 ^ 4) ∷ to_hex (bit_and c 0x0F) ∷ [], 0)
    else if is_two c
    then (c ∷ [], 1)
    else if is_three c
    then (c ∷ [], 2)
    else if is_four c
    then (c ∷ [], 3)
    else ([], 0)

unfoldable pub escape_byte : ℕ → Bytes × ℕ
unfolding letter_of escape_default
escape_byte c = elim (letter_of c) [ some e ↦ (0x5C ∷ e ∷ [], 0) | none ↦ escape_default c ]

-- The first argument counts the bytes that are still to be copied as they are.
unfoldable pub escape_loop : ℕ → Bytes → Bytes
unfolding escape_byte
escape_loop k [] = []
escape_loop (suc k) (c ∷ s) = c ∷ escape_loop k s
escape_loop zero (c ∷ s) = (escape_byte c).0 ++ escape_loop (escape_byte c).1 s

unfoldable pub escape : Bytes → Bytes
unfolding escape_loop
escape s = escape_loop 0 s
