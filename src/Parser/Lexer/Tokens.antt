-- ===== src/Parser/Lexer/Tokens.antt =====
-- `TokenKind` and `Token` of src/parser/lexer.h, and the part of a token's location that is not the
-- source (src/parser/source.h): the offsets of its first and its last byte.
use verona.Prelude.{ℕ, ◌+◌, ◌-◌, ◌%◌, ◌^◌, take, drop}
use verona.Parser.Escaping.Bytes.{Bytes}

pub data TokenKind : Type 0 where
  invalid : TokenKind
  dot ellipsis comma l_paren r_paren l_square r_square l_brace r_brace : TokenKind
  semicolon colon double_colon fat_arrow equals : TokenKind
  escaped_string unescaped_string character int float hex binary bool : TokenKind
  module_keyword class interface type using try catch throw match when let_keyword var new :
      TokenKind
  iso mut imm self symbol ident end : TokenKind

pub record Span : Type 0 where
  pub first : ℕ
  pub last : ℕ

pub record Token : Type 0 where
  pub kind : TokenKind
  pub location : Span

-- The cast to `uint32_t`.
abbrev pub u32 : ℕ → ℕ
u32 n = n % 2 ^ 32

-- `i - k` in `size_t`.
unfoldable pub back : ℕ → ℕ → ℕ
back i k = (i + 2 ^ 64 - k) % 2 ^ 64

-- The constructor of `Location`.
unfoldable pub span : ℕ → ℕ → Span
span start stop = record { first = u32 start; last = u32 stop }

unfoldable pub token : TokenKind → ℕ → ℕ → Token
unfolding span
token kind start stop = record { kind = kind; location = span start stop }

-- `substr` at a start that is in the string; the subtraction is in `uint32_t`.
unfoldable pub view : Bytes → Span → Bytes
view contents l = take (u32 (l.last + 2 ^ 32 - l.first + 1)) (drop l.first contents)
