-- ===== src/Parser/Lexer/Symbols.antt =====
-- `next` and the functions of src/parser/lexer.cc that consume invalid bytes, symbols, identifiers
-- and keywords. A function that moves the index `i` returns it next to its token; a loop over the
-- index is a recursion on the bytes behind it.
use verona.Prelude.{
  ℕ, suc, ◌+◌, Bool, true, false, ◌&&◌, ◌||◌, List, [], ◌∷◌, Option, none, some, ltb, ◌==◌,
  if◌then◌else◌, length, drop,
}
use verona.Parser.Escaping.Bytes.{Bytes, at}
use verona.Parser.Lexer.Tokens.{
  TokenKind, Token, token, span, back, view, invalid, dot, ellipsis, comma, l_paren, r_paren,
  l_square, r_square, l_brace, r_brace, semicolon, colon, double_colon, fat_arrow, equals, symbol,
  ident,
}
use verona.Parser.Lexer.Classes.{
  x_class, y_class, q_class, l_class, n_class, i_class, c_class, e_class, eof, lookup, keywords,
  Keyword,
}

abbrev pub Lexed : Type 0
Lexed = Token × ℕ

-- At the bytes behind `i`: the class of the next byte, and the index that is left in `i`.
unfoldable pub next : Bytes → ℕ → ℕ × ℕ
next [] i = (eof, i)
next (c ∷ s) i = (lookup c, suc i)

-- The index at which a loop `while (keeps(next(source, i)))` stops; `next` has moved to that byte,
-- unless there is none.
unfoldable pub next_while : (ℕ → Bool) → Bytes → ℕ → ℕ
unfolding next
next_while keeps [] i = (next [] i).1
next_while keeps (c ∷ s) i =
    let (k, j) = next (c ∷ s) i in if keeps k then next_while keeps s j else j

unfoldable pub consume_invalid : Bytes → ℕ → Lexed
unfolding next_while
consume_invalid contents i =
    let j = next_while (λ k. k == x_class) (drop (suc i) contents) i in
    (token invalid i (back j 1), j)

-- Colons, slashes, and equals are valid symbol continuations.
unfoldable pub continues_symbol : ℕ → Bool
continues_symbol k = (k == y_class) || (k == l_class) || (k == c_class) || (k == e_class)

unfoldable pub consume_symbol : Bytes → ℕ → Lexed
unfolding next_while continues_symbol
consume_symbol contents i =
    let j = next_while continues_symbol (drop (suc i) contents) i in (token symbol i (back j 1), j)

abbrev pub is_ellipsis : Bytes → ℕ → Bool
is_ellipsis contents i =
    ltb (i + 2) (length contents) && (at contents (i + 1) == b'.') && (at contents (i + 2) == b'.')

-- The case `'.'` of the next function.
unfoldable pub consume_dot : Bytes → ℕ → Lexed
consume_dot contents i =
    if is_ellipsis contents i then (token ellipsis i (i + 2), i + 3) else (token dot i i, i + 1)

-- The other cases, each of one byte.
unfoldable pub builtin_kind : ℕ → Option TokenKind
builtin_kind c =
    if c == b','
    then some comma
    else if c == b'('
    then some l_paren
    else if c == b')'
    then some r_paren
    else if c == b'['
    then some l_square
    else if c == b']'
    then some r_square
    else if c == b'{'
    then some l_brace
    else if c == b'}'
    then some r_brace
    else if c == b';'
    then some semicolon
    else none

-- `none` is `abort()`.
unfoldable pub consume_builtin_symbol : Bytes → ℕ → Option Lexed
unfolding consume_dot builtin_kind
consume_builtin_symbol contents i =
    if at contents i == b'.'
    then some (consume_dot contents i)
    else elim (builtin_kind (at contents i)) [
      | none ↦ none
      | some kind ↦ some (token kind i i, i + 1)
    ]

-- Idents and numbers are valid ident continuations; prime is the only other one.
unfoldable pub continues_ident : ℕ → Bool
continues_ident c =
    let k = lookup c in (k == i_class) || (k == n_class) || ((k == q_class) && (c == 0x27))

unfoldable pub ident_end : Bytes → ℕ → ℕ
unfolding continues_ident
ident_end [] i = suc i
ident_end (c ∷ s) i = if continues_ident c then ident_end s (suc i) else suc i

-- The comparison of a view with a text.
unfoldable pub same_text : Bytes → Bytes → Bool
same_text [] [] = true
same_text (a ∷ s) (b ∷ t) = (a == b) && same_text s t
same_text _ _ = false

unfoldable pub keyword_kind : List Keyword → Bytes → TokenKind
unfolding same_text
keyword_kind [] text = ident
keyword_kind ((keyword, kind) ∷ rest) text =
    if same_text text keyword then kind else keyword_kind rest text

unfoldable pub consume_ident : Bytes → ℕ → Lexed
unfolding ident_end keyword_kind token span
consume_ident contents i =
    let j = ident_end (drop (suc i) contents) i in
    let location = span i (back j 1) in
    (record { kind = keyword_kind keywords (view contents location); location = location }, j)

-- The tests of the next two functions on the byte behind `i`.
abbrev pub is_double_colon : Bytes → ℕ → Bool
is_double_colon contents i =
    ltb (suc i) (length contents) && (lookup (at contents (suc i)) == c_class)

abbrev pub colon_continues : Bytes → ℕ → Bool
colon_continues contents i =
    let k = lookup (at contents (suc i)) in
    ltb (suc i) (length contents) && ((k == y_class) || (k == e_class))

abbrev pub is_fat_arrow : Bytes → ℕ → Bool
is_fat_arrow contents i = ltb (suc i) (length contents) && (at contents (suc i) == b'>')

abbrev pub equal_continues : Bytes → ℕ → Bool
equal_continues contents i =
    let k = lookup (at contents (suc i)) in
    ltb (suc i) (length contents) && ((k == y_class) || (k == c_class) || (k == e_class))

unfoldable pub consume_colon : Bytes → ℕ → Lexed
unfolding consume_symbol
consume_colon contents i =
    if is_double_colon contents i
    then (token double_colon i (back (i + 2) 1), i + 2)
    else if colon_continues contents i
    then consume_symbol contents i
    else (token colon i (back (suc i) 1), suc i)

unfoldable pub consume_equal : Bytes → ℕ → Lexed
unfolding consume_symbol
consume_equal contents i =
    if is_fat_arrow contents i
    then (token fat_arrow i (back (i + 2) 1), i + 2)
    else if equal_continues contents i
    then consume_symbol contents i
    else (token equals i (back (suc i) 1), suc i)
