-- ===== src/Parser/Lexer/Classes.antt =====
-- Bytes of a source and their classes: `lookup`, `keywords` and the tests on digits of
-- src/parser/lexer.cc.
use verona.Prelude.{ℕ, Bool, ◌&&◌, ◌||◌, List, [], ◌∷◌, none, some, leb, ◌==◌, get_elem?, replicate}
use verona.Parser.Escaping.Bytes.{Bytes}
use verona.Parser.Lexer.Tokens.{
  TokenKind, module_keyword, class, interface, type, using, try, catch, throw, match, when,
  let_keyword, var, new, iso, mut, imm, self, bool,
}

-- The classes: invalid, whitespace, symbol, quote, builtin symbol, slash, number start, identifier
-- start, colon, equal, and the end of the file.
abbrev pub x_class : ℕ
x_class = 0

abbrev pub w_class : ℕ
w_class = 1

abbrev pub y_class : ℕ
y_class = 2

abbrev pub q_class : ℕ
q_class = 3

abbrev pub z_class : ℕ
z_class = 4

abbrev pub l_class : ℕ
l_class = 5

abbrev pub n_class : ℕ
n_class = 6

abbrev pub i_class : ℕ
i_class = 7

abbrev pub c_class : ℕ
c_class = 8

abbrev pub e_class : ℕ
e_class = 9

abbrev pub eof : ℕ
eof = 255

-- The array: the second half is `x_class` throughout.
unfoldable pub classes : List ℕ
classes =
    0
    ∷ 0
    ∷ 0
    ∷ 0
    ∷ 0
    ∷ 0
    ∷ 0
    ∷ 0
    ∷ 0
    ∷ 1
    ∷ 1
    ∷ 0
    ∷ 0
    ∷ 1
    ∷ 0
    ∷ 0
    ∷ 0
    ∷ 0
    ∷ 0
    ∷ 0
    ∷ 0
    ∷ 0
    ∷ 0
    ∷ 0
    ∷ 0
    ∷ 0
    ∷ 0
    ∷ 0
    ∷ 0
    ∷ 0
    ∷ 0
    ∷ 0
    ∷ 1
    ∷ 2
    ∷ 3
    ∷ 2
    ∷ 2
    ∷ 2
    ∷ 2
    ∷ 3
    ∷ 4
    ∷ 4
    ∷ 2
    ∷ 2
    ∷ 4
    ∷ 2
    ∷ 4
    ∷ 5
    ∷ 6
    ∷ 6
    ∷ 6
    ∷ 6
    ∷ 6
    ∷ 6
    ∷ 6
    ∷ 6
    ∷ 6
    ∷ 6
    ∷ 8
    ∷ 4
    ∷ 2
    ∷ 9
    ∷ 2
    ∷ 2
    ∷ 2
    ∷ 7
    ∷ 7
    ∷ 7
    ∷ 7
    ∷ 7
    ∷ 7
    ∷ 7
    ∷ 7
    ∷ 7
    ∷ 7
    ∷ 7
    ∷ 7
    ∷ 7
    ∷ 7
    ∷ 7
    ∷ 7
    ∷ 7
    ∷ 7
    ∷ 7
    ∷ 7
    ∷ 7
    ∷ 7
    ∷ 7
    ∷ 7
    ∷ 7
    ∷ 7
    ∷ 4
    ∷ 2
    ∷ 4
    ∷ 2
    ∷ 7
    ∷ 2
    ∷ 7
    ∷ 7
    ∷ 7
    ∷ 7
    ∷ 7
    ∷ 7
    ∷ 7
    ∷ 7
    ∷ 7
    ∷ 7
    ∷ 7
    ∷ 7
    ∷ 7
    ∷ 7
    ∷ 7
    ∷ 7
    ∷ 7
    ∷ 7
    ∷ 7
    ∷ 7
    ∷ 7
    ∷ 7
    ∷ 7
    ∷ 7
    ∷ 7
    ∷ 7
    ∷ 4
    ∷ 2
    ∷ 4
    ∷ 2
    ∷ 0
    ∷ replicate 128 x_class

unfoldable pub lookup : ℕ → ℕ
unfolding classes
lookup c = elim (get_elem? classes c) [ none ↦ x_class | some k ↦ k ]

unfoldable pub is_digit : ℕ → Bool
is_digit c = (leb b'0' c && leb c b'9') || (c == b'_')

unfoldable pub is_hex : ℕ → Bool
unfolding is_digit
is_hex c = (leb b'a' c && leb c b'f') || (leb b'A' c && leb c b'F') || is_digit c

unfoldable pub is_binary : ℕ → Bool
is_binary c = (leb b'0' c && leb c b'1') || (c == b'_')

abbrev pub Keyword : Type 0
Keyword = Bytes × TokenKind

unfoldable pub keywords : List Keyword
keywords =
    (b'm' ∷ b'o' ∷ b'd' ∷ b'u' ∷ b'l' ∷ b'e' ∷ [], module_keyword)
    ∷ (b'c' ∷ b'l' ∷ b'a' ∷ b's' ∷ b's' ∷ [], class)
    ∷ (b'i' ∷ b'n' ∷ b't' ∷ b'e' ∷ b'r' ∷ b'f' ∷ b'a' ∷ b'c' ∷ b'e' ∷ [], interface)
    ∷ (b't' ∷ b'y' ∷ b'p' ∷ b'e' ∷ [], type)
    ∷ (b'u' ∷ b's' ∷ b'i' ∷ b'n' ∷ b'g' ∷ [], using)
    ∷ (b't' ∷ b'r' ∷ b'y' ∷ [], try)
    ∷ (b'c' ∷ b'a' ∷ b't' ∷ b'c' ∷ b'h' ∷ [], catch)
    ∷ (b't' ∷ b'h' ∷ b'r' ∷ b'o' ∷ b'w' ∷ [], throw)
    ∷ (b'm' ∷ b'a' ∷ b't' ∷ b'c' ∷ b'h' ∷ [], match)
    ∷ (b'w' ∷ b'h' ∷ b'e' ∷ b'n' ∷ [], when)
    ∷ (b'l' ∷ b'e' ∷ b't' ∷ [], let_keyword)
    ∷ (b'v' ∷ b'a' ∷ b'r' ∷ [], var)
    ∷ (b'n' ∷ b'e' ∷ b'w' ∷ [], new)
    ∷ (b'i' ∷ b's' ∷ b'o' ∷ [], iso)
    ∷ (b'm' ∷ b'u' ∷ b't' ∷ [], mut)
    ∷ (b'i' ∷ b'm' ∷ b'm' ∷ [], imm)
    ∷ (b'S' ∷ b'e' ∷ b'l' ∷ b'f' ∷ [], self)
    ∷ (b't' ∷ b'r' ∷ b'u' ∷ b'e' ∷ [], bool)
    ∷ (b'f' ∷ b'a' ∷ b'l' ∷ b's' ∷ b'e' ∷ [], bool)
    ∷ []
