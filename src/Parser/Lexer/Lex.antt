-- ===== src/Parser/Lexer/Lex.antt =====
-- Comments, and `lex` of src/parser/lexer.cc.
use verona.Prelude.{
  ℕ, zero, suc, ◌+◌, ◌-◌, [], ◌∷◌, Option, none, some, ltb, leb, ◌==◌, if◌then◌else◌, length, drop,
}
use verona.Parser.Escaping.Bytes.{Bytes, at}
use verona.Parser.Lexer.Tokens.{token, back, end}
use verona.Parser.Lexer.Classes.{
  x_class, w_class, y_class, q_class, z_class, l_class, n_class, i_class, c_class, e_class, lookup,
}
use verona.Parser.Lexer.Symbols.{
  Lexed, consume_invalid, consume_symbol, consume_builtin_symbol, consume_ident, consume_colon,
  consume_equal,
}
use verona.Parser.Lexer.Numbers.{consume_number}
use verona.Parser.Lexer.Quotes.{consume_string}

-- `consume_line_comment`: the index behind the line.
unfoldable pub consume_line_comment : Bytes → ℕ → ℕ
consume_line_comment [] i = suc i
consume_line_comment (c ∷ s) i = if c == 0x0A then i + 2 else consume_line_comment s (suc i)

pub data CommentState : Type 0 where
  slash star other : CommentState

-- What a byte makes of the state and the depth.
unfoldable pub comment_step : CommentState → ℕ → ℕ → CommentState × ℕ
comment_step state depth c =
    if c == 0x2F
    then elim state [ star ↦ (other, depth - 1) | _ ↦ (slash, depth) ]
    else if c == 0x2A
    then elim state [ slash ↦ (other, depth + 1) | _ ↦ (star, depth) ]
    else (other, depth)

-- The loop of `consume_nested_comment`, which ends where the depth is 0.
unfoldable pub comment_loop : CommentState → ℕ → Bytes → ℕ → ℕ
unfolding comment_step
comment_loop state depth [] i = suc i
comment_loop state depth (c ∷ s) i =
    let (after, left) = comment_step state depth c in
    let rest = comment_loop after left s (suc i) in if left == 0 then i + 2 else rest

unfoldable pub consume_nested_comment : Bytes → ℕ → ℕ
unfolding comment_loop
consume_nested_comment s i = comment_loop other 1 s i

-- `none` is `false`: no comment starts here, and `i` is what it was. The functions above are given
-- the bytes behind their index.
unfoldable pub consume_comment : Bytes → ℕ → Option ℕ
unfolding consume_line_comment consume_nested_comment
consume_comment contents i =
    let c = at contents (suc i) in
    let behind = drop (i + 3) contents in
    if leb (length contents) (suc i)
    then none
    else if c == 0x2F
    then some (consume_line_comment behind (i + 2))
    else if c == 0x2A
    then some (consume_nested_comment behind (i + 2))
    else none

-- A round of the loop of `lex`: it moves `i`, returns, or calls `abort()`.
pub data Round : Type 0 where
  skips : ℕ → Round
  emits : Lexed → Round
  aborts : Round

unfoldable pub lex_round : Bytes → ℕ → Round
unfolding consume_comment
lex_round contents i =
    let k = lookup (at contents i) in
    if k == x_class
    then emits (consume_invalid contents i)
    else if k == w_class
    then skips (suc i)
    else if k == y_class
    then emits (consume_symbol contents i)
    else if k == q_class
    then emits (consume_string contents i)
    else if k == z_class
    then elim (consume_builtin_symbol contents i) [ none ↦ aborts | some t ↦ emits t ]
    else if k == l_class
    then elim (consume_comment contents i) [
      | none ↦ emits (consume_symbol contents i)
      | some j ↦ skips j
    ]
    else if k == n_class
    then emits (consume_number contents i)
    else if k == i_class
    then emits (consume_ident contents i)
    else if k == c_class
    then emits (consume_colon contents i)
    else if k == e_class
    then emits (consume_equal contents i)
    else skips i

unfoldable pub lex_loop : ℕ → Bytes → ℕ → ℕ → Option Lexed
lex_loop zero contents start i = none
lex_loop (suc fuel) contents start i =
    if ltb i (length contents)
    then elim (lex_round contents i) [
      | skips j ↦ lex_loop fuel contents start j
      | emits t ↦ some t
      | aborts ↦ none
    ]
    else some (token end start (back i 1), i)

-- The fuel is one round for each byte, and one to end.
unfoldable pub lex : Bytes → ℕ → Option Lexed
lex contents i = lex_loop (suc (length contents)) contents i i
