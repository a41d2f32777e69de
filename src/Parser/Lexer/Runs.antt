-- ===== src/Parser/Lexer/Runs.antt =====
-- What the functions of src/parser/lexer.cc make of certain runs of bytes, wherever in a source
-- they stand.
use verona.Prelude.{
  ℕ, zero, suc, ◌+◌, ◌-◌, ◌<◌, ◌^◌, ◌%◌, ◌≡◌, ◌≢◌, ◌==◌, refl, ap, sym, ◌∙◌, ◌⊎◌, inl, inr, Bool,
  true, false, [], ◌∷◌, ◌++◌, some, arith, length, take, All, length-append, drop-append,
  take-append, Bool-cases, ==_ne, leb, ltb, ◌||◌, ◌&&◌, not,
}
use verona.Parser.Escaping.Bytes.{Bytes, at, table, table_lookup}
use verona.Parser.Lexer.Tokens.{Span, u32, span, back, token, view, invalid, symbol}
use verona.Parser.Lexer.Classes.{y_class, l_class, lookup, classes, keywords}
use verona.Parser.Lexer.Symbols.{
  Lexed, consume_symbol, continues_ident, ident_end, keyword_kind, consume_ident,
}
use verona.Parser.Lexer.Quotes.{unclosed, literal_loop, consume_escaped_string}
use verona.Parser.Lexer.Lex.{consume_line_comment, consume_comment, emits, lex_round, lex_loop, lex}
use verona.Parser.Lexer.Cut.{lookup-above, span_last}

at-append : (xs ys : Bytes) (j k : ℕ) → j ≡ length xs + k → at (xs ++ ys) j ≡ at ys k
at-append [] ys j k h = ap (λ i. at ys i) (omega arith)
at-append (x ∷ xs) ys zero k h = absurd (omega arith)
at-append (x ∷ xs) ys (suc j) k h = at-append xs ys j k (omega arith)

-- The bytes of words: letters, digits, the underscore and the prime.
abbrev pub is_word : ℕ → Bool
is_word c =
    (leb b'a' c && leb c b'z')
    || (leb b'A' c && leb c b'Z')
    || (leb b'0' c && leb c b'9')
    || (c == b'_')
    || (c == 0x27)

abbrev same : Bool → Bool → Bool
same true b = b
same false b = not b

same_eq : (a b : Bool) → same a b ≡ true → a ≡ b
same_eq a b h = ground arith

word_table : table (λ c. same (continues_ident c) (is_word c)) 256 ≡ true
unfolding table lookup classes continues_ident
word_table = refl

continues_ident-is_word : (c : ℕ) → continues_ident c ≡ is_word c
unfolding continues_ident
continues_ident-is_word c = elim (Bool-cases (ltb c 256)) [
  | inl lt ↦ same_eq _ _ (table_lookup _ word_table (ground arith))
  | inr ge ↦ rw (lookup-above c (ground arith)) (ground arith)
]

-- No word goes on in what follows.
abbrev pub EndsWord : Bytes → Type 0
EndsWord [] = Unit
EndsWord (c ∷ s) = is_word c ≡ false

ident_end-word :
    (w rest : Bytes) (i : ℕ)
    → All (λ c. is_word c ≡ true) w
    → EndsWord rest
    → ident_end (w ++ rest) i ≡ suc (i + length w)
unfolding ident_end
ident_end-word [] [] i h e = omega arith
ident_end-word [] (c ∷ rest) i h e = rw (continues_ident-is_word c ∙ e) (omega arith)
ident_end-word (c ∷ w) rest i h e =
    rw (continues_ident-is_word c ∙ h.0) (ident_end-word w rest (suc i) h.1 e ∙ omega arith)

module _ (pre : Bytes) (c : ℕ) (w rest : Bytes) where
  abbrev source : Bytes
  source = pre ++ c ∷ (w ++ rest)

  view-word :
      length source < 2 ^ 32 → view source (span (length pre) (length pre + length w)) ≡ c ∷ w
  unfolding view span
  view-word h =
      let whole = length-append pre (c ∷ (w ++ rest)) in
      let word = length-append w rest in
      let there = drop-append pre (c ∷ (w ++ rest)) (length pre % 2 ^ 32) 0 (omega arith) in
      let k = u32 (u32 (length pre + length w) + 2 ^ 32 - u32 (length pre) + 1) in
      ap (λ s. take k s) there ∙ take-append (c ∷ w) rest k (omega arith)

  -- In a source of fewer than 2^32 bytes: at a byte `c` with the bytes of a word behind it that does
  -- not go on, `consume_ident` reads all of the word and no more, and its kind is the one that
  -- `keywords` has for the word from `c` on, or `ident`.
  pub consume_ident-word :
      length source < 2 ^ 32
      → All (λ b. is_word b ≡ true) w
      → EndsWord rest
      → consume_ident source (length pre) ≡ (
        record {
          kind = keyword_kind keywords (c ∷ w);
          location = span (length pre) (length pre + length w);
        },
        suc (length pre + length w),
      )
  unfolding consume_ident
  consume_ident-word fits word ends =
      let behind = drop-append pre (c ∷ (w ++ rest)) (suc (length pre)) 1 (omega arith) in
      let j =
        ap (λ s. ident_end s (length pre)) behind ∙ ident_end-word w rest (length pre) word ends in
      let last_byte =
        span_last (length pre) (length pre + length w) (suc (length pre + length w)) refl in
      let next_index = suc (length pre + length w) in
      let at_span : Span → ℕ → Lexed =
        λ l k. (record { kind = keyword_kind keywords (view source l); location = l }, k) in
      ap (λ k. at_span (span (length pre) (back k 1)) k) j
      ∙ ap (λ l. at_span l next_index) (sym last_byte)
      ∙ ap
          (λ v. (
            record {
              kind = keyword_kind keywords v;
              location = span (length pre) (length pre + length w);
            },
            next_index,
          ))
          (view-word fits)

module _ (pre : Bytes) (c : ℕ) where
  symbol_round :
      lookup c ≡ y_class ⊎ lookup c ≡ l_class
      → lex_round (pre ++ c ∷ []) (length pre)
        ≡ emits (token symbol (length pre) (back (length pre) 1), length pre)
  unfolding lex_round consume_symbol
  symbol_round h =
      let here = at-append pre (c ∷ []) (length pre) 0 (omega arith) in
      let behind = drop-append pre (c ∷ []) (suc (length pre)) 1 (omega arith) in
      let whole = length-append pre (c ∷ []) in
      let last : leb (length (pre ++ c ∷ [])) (suc (length pre)) ≡ true = ground arith in
      elim h [
        | inl e ↦ rw (here, e, behind) refl
        | inr e ↦ rw (here, e, last, consume_comment, consume_symbol, behind) refl
      ]

  -- When the last byte of a source is a symbol byte or a slash, `lex` at that byte returns a symbol,
  -- not `end`, and leaves the index where it was, so that the next call is the same.
  pub lex-symbol_at_end :
      lookup c ≡ y_class ⊎ lookup c ≡ l_class
      → lex (pre ++ c ∷ []) (length pre)
        ≡ some (token symbol (length pre) (back (length pre) 1), length pre)
  unfolding lex lex_loop
  lex-symbol_at_end h =
      let whole = length-append pre (c ∷ []) in
      let inside : ltb (length pre) (length (pre ++ c ∷ [])) ≡ true = ground arith in
      rw (inside, symbol_round h) refl

line_end :
    (t rest : Bytes) (i : ℕ)
    → All (λ b. b ≢ 0x0A) t
    → consume_line_comment (t ++ 0x0A ∷ rest) i ≡ i + 2 + length t
unfolding consume_line_comment
line_end [] rest i h = omega arith
line_end (b ∷ t) rest i h = rw (==_ne b 0x0A h.0) (line_end t rest (suc i) h.1 ∙ omega arith)

-- `consume_comment` does not look at the byte `c` behind the two slashes: the comment ends behind the
-- first newline after `c`, also where `c` is itself a newline.
pub consume_comment-blind :
    (pre : Bytes) (c : ℕ) (t rest : Bytes)
    → All (λ b. b ≢ 0x0A) t
    → consume_comment (pre ++ 0x2F ∷ 0x2F ∷ c ∷ (t ++ 0x0A ∷ rest)) (length pre)
      ≡ some (length pre + 4 + length t)
unfolding consume_comment
consume_comment-blind pre c t rest h =
    let behind = 0x2F ∷ 0x2F ∷ c ∷ (t ++ 0x0A ∷ rest) in
    let whole = length-append pre behind in
    let inside : leb (length (pre ++ behind)) (suc (length pre)) ≡ false = ground arith in
    let second = at-append pre behind (suc (length pre)) 1 (omega arith) in
    let left = drop-append pre behind (length pre + 3) 3 (omega arith) in
    rw (inside, second, left) (ap some (line_end t rest (length pre + 2) h ∙ omega arith))

literal_loop-free :
    (quote i : ℕ) (backslash : Bool) (s : Bytes)
    → All (λ b. b ≢ quote) s
    → literal_loop quote backslash s i ≡ unclosed (suc i + length s)
unfolding literal_loop
literal_loop-free quote i backslash [] h = ap unclosed (omega arith)
literal_loop-free quote i backslash (b ∷ s) h =
    rw (==_ne b quote h.0)
      (literal_loop-free quote (suc i) (b == 0x5C) s h.1 ∙ ap unclosed (omega arith))

literal_loop-escaped :
    (i : ℕ) (backslash : Bool) (body rest : Bytes)
    → All (λ b. b ≢ 0x22) body
    → All (λ b. b ≢ 0x22) rest
    → literal_loop 0x22 backslash (body ++ 0x5C ∷ 0x22 ∷ rest) i
      ≡ unclosed (i + 3 + length body + length rest)
unfolding literal_loop
literal_loop-escaped i backslash [] rest h k =
    literal_loop-free 0x22 (suc (suc i)) false rest k ∙ ap unclosed (omega arith)
literal_loop-escaped i backslash (b ∷ body) rest h k =
    rw (==_ne b 0x22 h.0)
      (literal_loop-escaped (suc i) (b == 0x5C) body rest h.1 k ∙ ap unclosed (omega arith))

-- A string literal is not closed by a double quote behind a backslash, even where the backslash is
-- itself escaped: where no other double quote stands before it in the literal or behind it in the
-- source, `consume_escaped_string` returns an invalid token at the end of the source.
pub consume_escaped_string-escaped :
    (pre body rest : Bytes)
    → All (λ b. b ≢ 0x22) body
    → All (λ b. b ≢ 0x22) rest
    → let source = pre ++ 0x22 ∷ (body ++ 0x5C ∷ 0x22 ∷ rest) in
      consume_escaped_string source (length pre)
      ≡ (token invalid (length pre) (back (length source) 1), length source)
unfolding consume_escaped_string
consume_escaped_string-escaped pre body rest h k =
    let source = pre ++ 0x22 ∷ (body ++ 0x5C ∷ 0x22 ∷ rest) in
    let behind =
      drop-append pre (0x22 ∷ (body ++ 0x5C ∷ 0x22 ∷ rest)) (suc (length pre)) 1 (omega arith) in
    let whole = length-append pre (0x22 ∷ (body ++ 0x5C ∷ 0x22 ∷ rest)) in
    let inner = length-append body (0x5C ∷ 0x22 ∷ rest) in
    let ends = literal_loop-escaped (length pre) false body rest h k in
    let size : length pre + 3 + length body + length rest ≡ length source = omega arith in
    rw (behind, ends, size) refl
