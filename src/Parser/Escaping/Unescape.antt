-- ===== src/Parser/Escaping/Unescape.antt =====
-- `utf8` and `unescape` of src/parser/escaping.cc.
use Prim.Native.Nat.{bit_and, bit_or}
use verona.Prelude.{
  ℕ, zero, suc, ◌*◌, ◌/◌, ◌^◌, Bool, true, false, ◌||◌, [], ◌∷◌, ◌++◌, ltb, ◌==◌, if◌then◌else◌,
}
use verona.Parser.Escaping.Bytes.{Bytes, from_hex}
use verona.Parser.Escaping.Check.{is_xescape, is_uescape, is_Uescape}

-- The number of digits that the constructor of `utf8` reads; `c` is the letter, `s` what follows.
unfoldable pub digits : ℕ → Bytes → ℕ
unfolding is_xescape is_uescape is_Uescape
digits c s =
    if c == b'x'
    then (if is_xescape s then 2 else 0)
    else if c == b'u'
    then (if is_uescape s then 4 else 0)
    else if c == b'U'
    then (if is_Uescape s then 6 else 0)
    else 0

-- The loop of the constructor, from the first digit on.
unfoldable pub read_hex : ℕ → ℕ → Bytes → ℕ
unfolding from_hex
read_hex zero h s = h
read_hex (suc len) h [] = h
read_hex (suc len) h (c ∷ s) = read_hex len (bit_or h (from_hex c * 2 ^ (len * 4))) s

-- `operator<<` for `utf8`.
unfoldable pub encode : ℕ → Bytes
encode h =
    if ltb h 0x80
    then h ∷ []
    else if ltb h 0x800
    then bit_or 0xC0 (h / 2 ^ 6) ∷ bit_or 0x80 (bit_and h 0x3F) ∷ []
    else if ltb h 0x10000
    then bit_or 0xE0 (h / 2 ^ 12)
      ∷ bit_or 0x80 (bit_and (h / 2 ^ 6) 0x3F)
      ∷ bit_or 0x80 (bit_and h 0x3F)
      ∷ []
    else if ltb h 0x110000
    then bit_or 0xF0 (h / 2 ^ 18)
      ∷ bit_or 0x80 (bit_and (h / 2 ^ 12) 0x3F)
      ∷ bit_or 0x80 (bit_and (h / 2 ^ 6) 0x3F)
      ∷ bit_or 0x80 (bit_and h 0x3F)
      ∷ []
    else []

-- The letters that stand for another byte than themselves.
unfoldable pub reveal_letter : ℕ → ℕ
reveal_letter c =
    if c == b'a'
    then 0x07
    else if c == b'b'
    then 0x08
    else if c == b'e'
    then 0x1B
    else if c == b'f'
    then 0x0C
    else if c == b'n'
    then 0x0A
    else if c == b'r'
    then 0x0D
    else if c == b't'
    then 0x09
    else if c == b'v'
    then 0x0B
    else if c == b'0'
    then 0x00
    else c

-- What an escape stands for: `c` is the byte behind the backslash, `s` what follows it.
unfoldable pub reveal : ℕ → Bytes → Bytes
unfolding digits read_hex encode reveal_letter
reveal c s =
    if (c == b'x') || (c == b'u') || (c == b'U')
    then encode (read_hex (digits c s) 0 s)
    else reveal_letter c ∷ []

-- The first argument counts the digits that `utf8` has read; the second is `backslash`.
unfoldable pub unescape_loop : ℕ → Bool → Bytes → Bytes
unfolding reveal digits
unescape_loop k backslash [] = []
unescape_loop (suc k) backslash (c ∷ s) = unescape_loop k backslash s
unescape_loop zero false (c ∷ s) =
    (if c == 0x5C then [] else c ∷ []) ++ unescape_loop 0 (c == 0x5C) s
unescape_loop zero true (c ∷ s) = reveal c s ++ unescape_loop (digits c s) false s

unfoldable pub unescape : Bytes → Bytes
unfolding unescape_loop
unescape s = unescape_loop 0 false s
