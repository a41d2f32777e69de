-- ===== src/Parser/Lexer/Tests.antt =====
-- Runs of the lexer, and concrete uses of its properties.
use verona.Prelude.{suc, ◌≡◌, ◌≤◌, ◌<◌, refl, ◌⊎◌, some, [], ◌∷◌, length, arith}
use verona.Parser.Escaping.Bytes.{Bytes}
use verona.Parser.Escaping.Check.{is_unescaped}
use verona.Parser.Lexer.Tokens.{
  token, back, view, end, invalid, match, int, float, comma, unescaped_string, equals,
}
use verona.Parser.Lexer.Classes.{lookup, is_digit, keywords}
use verona.Parser.Lexer.Symbols.{
  keyword_kind, Lexed, consume_equal, consume_builtin_symbol, consume_ident,
}
use verona.Parser.Lexer.Numbers.{consume_number}
use verona.Parser.Lexer.Quotes.{consume_string}
use verona.Parser.Lexer.Lex.{lex, lex_loop, lex_round}
use verona.Parser.Lexer.Total.{lex-ends, lex-Inside, Inside}
use verona.Parser.Lexer.Runs.{consume_ident-word}

-- "x = 1".
abbrev assignment : Bytes
assignment = b'x' ∷ b' ' ∷ b'=' ∷ b' ' ∷ b'1' ∷ []

lex_equals : lex assignment 1 ≡ some (token equals 2 2, 3)
unfolding lex lex_loop lex_round token back lookup consume_equal
lex_equals = refl

-- "0.5e3,", "1e", and "1." at the end of a source.
lex_float : lex (b'0' ∷ b'.' ∷ b'5' ∷ b'e' ∷ b'3' ∷ b',' ∷ []) 0 ≡ some (token float 0 4, 5)
unfolding lex lex_loop lex_round token back lookup consume_number is_digit
lex_float = refl

lex_int : lex (b'1' ∷ b'e' ∷ []) 0 ≡ some (token int 0 0, 1)
unfolding lex lex_loop lex_round token back lookup consume_number is_digit
lex_int = refl

lex_dot_at_end : lex (b'1' ∷ b'.' ∷ []) 0 ≡ some (token invalid 0 1, 2)
unfolding lex lex_loop lex_round token back lookup consume_number is_digit
lex_dot_at_end = refl

-- '"a"' between a prime and a double quote on each side.
abbrev quoted : Bytes
quoted = 0x27 ∷ 0x22 ∷ b'a' ∷ 0x22 ∷ 0x27 ∷ []

lex-quoted : lex quoted 0 ≡ some (token unescaped_string 2 2, 5)
unfolding lex lex_loop lex_round token back lookup consume_string is_unescaped view
lex-quoted = refl

-- A comment without text takes the next line with it.
lex_comment : lex (0x2F ∷ 0x2F ∷ 0x0A ∷ b'x' ∷ 0x0A ∷ b',' ∷ []) 0 ≡ some (token comma 5 5, 6)
unfolding lex lex_loop lex_round token back lookup consume_builtin_symbol
lex_comment = refl

lex-ends_example :
    (t : Lexed) × (lex assignment 1 ≡ some t)
    × ((t.0.kind ≡ end × length assignment ≤ t.1) ⊎ (1 < t.1 ⊎ suc t.1 ≡ length assignment))
lex-ends_example = lex-ends assignment 1

lex-Inside_example : equals ≡ end ⊎ Inside 5 1 (token equals 2 2, 3)
unfolding token
lex-Inside_example =
    lex-Inside assignment 1 (token equals 2 2, 3) (omega arith) (omega arith) lex_equals

-- "(match," has the keyword at offset 1.
consume_ident-word_example :
    consume_ident (b'(' ∷ b'm' ∷ b'a' ∷ b't' ∷ b'c' ∷ b'h' ∷ b',' ∷ []) 1 ≡ (token match 1 5, 6)
unfolding keywords token keyword_kind
consume_ident-word_example =
    consume_ident-word (b'(' ∷ []) b'm' (b'a' ∷ b't' ∷ b'c' ∷ b'h' ∷ []) (b',' ∷ []) (omega arith)
      (refl, (refl, (refl, (refl, tt)))) refl
