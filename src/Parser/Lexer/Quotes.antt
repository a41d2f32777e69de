-- ===== src/Parser/Lexer/Quotes.antt =====
-- Character literals and strings: `consume_character_literal`, `consume_escaped_string`,
-- `consume_unescaped_string` and `consume_string` of src/parser/lexer.cc.
use verona.Prelude.{ℕ, suc, ◌+◌, ◌-◌, Bool, false, not, ◌&&◌, [], ◌∷◌, ◌==◌, if◌then◌else◌, drop}
use verona.Parser.Escaping.Bytes.{Bytes, at}
use verona.Parser.Escaping.Check.{is_escaped, is_unescaped}
use verona.Parser.Lexer.Tokens.{
  TokenKind, token, span, back, view, invalid, escaped_string, unescaped_string, character,
}
use verona.Parser.Lexer.Symbols.{Lexed}

-- The index with which a loop is left: of the byte that closes the literal, or behind the source.
pub data Closing : Type 0 where
  closed : ℕ → Closing
  unclosed : ℕ → Closing

-- The loop of a literal between two of the same quote. `backslash` is set by a backslash and reset
-- by every other byte.
unfoldable pub literal_loop : ℕ → Bool → Bytes → ℕ → Closing
literal_loop quote backslash [] i = unclosed (suc i)
literal_loop quote backslash (c ∷ s) i =
    let rest = literal_loop quote (c == 0x5C) s (suc i) in
    if (c == quote) && not backslash then closed (suc i) else rest

unfoldable pub close_literal : TokenKind → Bytes → ℕ → Closing → Lexed
close_literal kind contents start (unclosed j) = (token invalid start (back j 1), j)
close_literal kind contents start (closed j) =
    let location = span (start + 1) (back j 1) in
    if not (is_escaped (view contents location))
    then (token invalid start (back (suc j) 1), suc j)
    else (record { kind = kind; location = location }, suc j)

unfoldable pub consume_character_literal : Bytes → ℕ → Lexed
unfolding literal_loop close_literal
consume_character_literal contents i =
    close_literal character contents i (literal_loop 0x27 false (drop (suc i) contents) i)

unfoldable pub consume_escaped_string : Bytes → ℕ → Lexed
unfolding literal_loop close_literal
consume_escaped_string contents i =
    close_literal escaped_string contents i (literal_loop 0x22 false (drop (suc i) contents) i)

pub data StringState : Type 0 where
  nesting terminating : StringState

pub record Progress : Type 0 where
  pub state : StringState
  pub count : ℕ
  pub depth : ℕ

unfoldable pub double_quote : ℕ → Progress → Progress
double_quote len p = elim p.state [
  | nesting ↦
      if p.count == len
      then record { state = nesting; count = 0; depth = p.depth + 1 }
      else record { state = terminating; count = 0; depth = p.depth }
  | terminating ↦ record { state = nesting; count = 0; depth = p.depth }
]

unfoldable pub prime : ℕ → Progress → Progress
prime len p =
    let counted : Progress = record { state = p.state; count = p.count + 1; depth = p.depth } in
    if p.count + 1 == len
    then elim p.state [
      | nesting ↦ counted
      | terminating ↦ record { state = terminating; count = 0; depth = p.depth - 1 }
    ]
    else counted

unfoldable pub unescaped_step : ℕ → Progress → ℕ → Progress
unfolding double_quote prime
unescaped_step len p c =
    if c == 0x22
    then double_quote len p
    else if c == 0x27
    then prime len p
    else record { state = nesting; count = 0; depth = p.depth }

-- The string is closed where its depth is 0.
unfoldable pub unescaped_loop : ℕ → Progress → Bytes → ℕ → Closing
unfolding unescaped_step
unescaped_loop len p [] i = unclosed (suc i)
unescaped_loop len p (c ∷ s) i =
    let after = unescaped_step len p c in
    let rest = unescaped_loop len after s (suc i) in
    if after.depth == 0 then closed (suc i) else rest

unfoldable pub close_unescaped : Bytes → ℕ → ℕ → Closing → Lexed
close_unescaped contents start len (unclosed j) = (token invalid start (back j 1), j)
close_unescaped contents start len (closed j) =
    let location = span (start + len + 1) (back j (len + 1)) in
    if not (is_unescaped (view contents location))
    then (token invalid start (back (suc j) 1), suc j)
    else (record { kind = unescaped_string; location = location }, suc j)

unfoldable pub consume_unescaped_string : Bytes → ℕ → ℕ → Lexed
unfolding unescaped_loop close_unescaped
consume_unescaped_string contents i len =
    let opened : Progress = record { state = nesting; count = 0; depth = 1 } in
    close_unescaped contents (i - len) len (unescaped_loop len opened (drop (suc i) contents) i)

-- Where the primes behind `i` end, and whether a double quote follows them.
unfoldable pub primes_end : Bytes → ℕ → ℕ × Bool
primes_end [] i = (suc i, false)
primes_end (c ∷ s) i = if c == 0x27 then primes_end s (suc i) else (suc i, c == 0x22)

unfoldable pub consume_string : Bytes → ℕ → Lexed
unfolding consume_escaped_string consume_unescaped_string consume_character_literal primes_end
consume_string contents start =
    let (i, opens) = primes_end (drop (suc start) contents) start in
    if at contents start == 0x22
    then consume_escaped_string contents start
    else if opens
    then consume_unescaped_string contents i (i - start)
    else if i - start == 1
    then consume_character_literal contents (i - 1)
    else (token invalid start (back (start + 2) 1), start + 2)
