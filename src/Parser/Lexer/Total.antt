-- ===== src/Parser/Lexer/Total.antt =====
-- `lex` ends, never aborts, and reads on.
use verona.Prelude.{
  ℕ, zero, suc, ◌+◌, ◌≤◌, ◌<◌, ◌^◌, ◌≡◌, ◌==◌, refl, ap, subst, sym, ◌∙◌, ◌⊎◌, inl, inr, true,
  false, [], ◌∷◌, Option, none, some, arith, length, drop, length-drop, some-injective, Bool-cases,
  eq_of_==, Option-cases, if-holds, leb, ltb,
}
use verona.Parser.Escaping.Bytes.{Bytes, at, table, table_lookup}
use verona.Parser.Lexer.Tokens.{span, back, token, end}
use verona.Parser.Lexer.Classes.{
  x_class, w_class, y_class, q_class, z_class, l_class, n_class, i_class, c_class, e_class, lookup,
  classes,
}
use verona.Parser.Lexer.Symbols.{Lexed, consume_symbol, consume_builtin_symbol}
use verona.Parser.Lexer.Cut.{
  Cut, lookup-above, consume_invalid-Cut, consume_symbol-Cut, consume_builtin_symbol-Cut,
  consume_ident-Cut, consume_colon-Cut, consume_equal-Cut,
}
use verona.Parser.Lexer.CutLiterals.{consume_number-Cut, consume_string-Cut}
use verona.Parser.Lexer.Lex.{
  CommentState, other, comment_step, consume_line_comment, comment_loop, consume_nested_comment,
  consume_comment, Round, skips, emits, aborts, lex_round, lex_loop, lex,
}

line_comment-bounds :
    (s : Bytes) (i : ℕ)
    → (i < consume_line_comment s i) × (consume_line_comment s i ≤ suc i + length s)
unfolding consume_line_comment
line_comment-bounds [] i = (omega arith, omega arith)
line_comment-bounds (c ∷ s) i =
    let (low, high) = line_comment-bounds s (suc i) in (ground arith, ground arith)

comment_loop-bounds :
    (state : CommentState) (depth : ℕ) (s : Bytes) (i : ℕ)
    → let j = comment_loop state depth s i in (i < j) × (j ≤ suc i + length s)
unfolding comment_loop
comment_loop-bounds state depth [] i = (omega arith, omega arith)
comment_loop-bounds state depth (c ∷ s) i =
    let (after, left) = comment_step state depth c in
    let (low, high) = comment_loop-bounds after left s (suc i) in
    if-holds (λ j. (i < j) × (j ≤ suc i + suc (length s))) (left == 0)
      (λ t. (omega arith, omega arith)) (λ f. (omega arith, omega arith))

abbrev Comments : ℕ → ℕ → Option ℕ → Type 0
Comments n i none = Unit
Comments n i (some j) = (i < j) × (j ≤ suc n)

consume_comment-Comments :
    (contents : Bytes) (i : ℕ)
    → i < length contents
    → Comments (length contents) i (consume_comment contents i)
unfolding consume_comment consume_nested_comment
consume_comment-Comments contents i h =
    let n = length contents in
    let behind = drop (i + 3) contents in
    let len = length-drop (i + 3) contents in
    let (low, high) = line_comment-bounds behind (i + 2) in
    let (low', high') = comment_loop-bounds other 1 behind (i + 2) in
    if-holds (Comments n i) (leb n (suc i)) (λ t. tt)
      (λ f.
        if-holds (Comments n i) (at contents (suc i) == 0x2F) (λ t. (omega arith, ground arith))
          (λ f'.
            if-holds (Comments n i) (at contents (suc i) == 0x2A) (λ t. (omega arith, ground arith))
              (λ f. tt)))

abbrev Rounds : ℕ → ℕ → Round → Type 0
Rounds n i (skips j) = (i < j) × (j ≤ suc n)
Rounds n i (emits t) = Cut n i t
Rounds n i aborts = ⊥

lookup-table : table (λ c. leb (lookup c) 9) 256 ≡ true
unfolding table lookup classes
lookup-table = refl

lookup-le : (c : ℕ) → lookup c ≤ 9
lookup-le c = elim (Bool-cases (ltb c 256)) [
  | inl lt ↦ small (table_lookup _ lookup-table (ground arith))
  | inr ge ↦ subst (λ k. k ≤ 9) (sym (lookup-above c (ground arith))) (omega arith)
]
  where
    small : {k : ℕ} → leb k 9 ≡ true → k ≤ 9
    small h = ground arith

beyond :
    (k : ℕ)
    → k ≤ 9
    → (k == 0) ≡ false
    → (k == 1) ≡ false
    → (k == 2) ≡ false
    → (k == 3) ≡ false
    → (k == 4) ≡ false
    → (k == 5) ≡ false
    → (k == 6) ≡ false
    → (k == 7) ≡ false
    → (k == 8) ≡ false
    → (k == 9) ≡ false
    → ⊥
beyond k h f0 f1 f2 f3 f4 f5 f6 f7 f8 f9 = ground arith

module _ (contents : Bytes) (i : ℕ) (h : i < length contents) where
  abbrev n : ℕ
  n = length contents

  after_builtin :
      lookup (at contents i) ≡ z_class
      → Rounds n i (elim (consume_builtin_symbol contents i) [ none ↦ aborts | some t ↦ emits t ])
  after_builtin z = let (t, e, cut) = consume_builtin_symbol-Cut contents i h z in rw e cut

  after_slash : Rounds n i (elim (consume_comment contents i) [
    | none ↦ emits (consume_symbol contents i)
    | some j ↦ skips j
  ])
  after_slash =
      let comment = consume_comment-Comments contents i h in
      elim (Option-cases (consume_comment contents i)) [
        | inl e ↦ rw e (consume_symbol-Cut contents i h)
        | inr (j, e) ↦ rw e (subst (Comments n i) e comment)
      ]

  lex_round-Rounds : Rounds n i (lex_round contents i)
  unfolding lex_round
  lex_round-Rounds =
      let k = lookup (at contents i) in
      if-holds (Rounds n i) (k == x_class) (λ e. consume_invalid-Cut contents i h)
        (λ f0.
          if-holds (Rounds n i) (k == w_class) (λ e. (omega arith, omega arith))
            (λ f1.
              if-holds (Rounds n i) (k == y_class) (λ e. consume_symbol-Cut contents i h)
                (λ f2.
                  if-holds (Rounds n i) (k == q_class) (λ e. consume_string-Cut contents i h)
                    (λ f3.
                      if-holds (Rounds n i) (k == z_class) (λ e. after_builtin (eq_of_== _ _ e))
                        (λ f4.
                          if-holds (Rounds n i) (k == l_class) (λ e. after_slash)
                            (λ f5.
                              if-holds (Rounds n i) (k == n_class)
                                (λ e. consume_number-Cut contents i h)
                                (λ f6.
                                  if-holds (Rounds n i) (k == i_class)
                                    (λ e. consume_ident-Cut contents i h)
                                    (λ f7.
                                      if-holds (Rounds n i) (k == c_class)
                                        (λ e. consume_colon-Cut contents i h)
                                        (λ f8.
                                          if-holds (Rounds n i) (k == e_class)
                                            (λ e. consume_equal-Cut contents i h)
                                            (λ f9. absurd (
                                              beyond k (lookup-le (at contents i)) f0 f1 f2 f3 f4 f5
                                                f6 f7 f8 f9)))))))))))

-- Where a call of `lex` at `i` leaves the source: at its end, or behind a token.
abbrev pub Lexes : ℕ → ℕ → Lexed → Type 0
Lexes n i t = (i ≤ t.1 × n ≤ t.1 × t.0.kind ≡ end) ⊎ ((k : ℕ) × (i ≤ k) × (k < n) × Cut n k t)

Lexes-later : {n i j : ℕ} (t : Lexed) → i ≤ j → Lexes n j t → Lexes n i t
Lexes-later t h (inl (low, high, e)) = inl (omega arith, high, e)
Lexes-later t h (inr (k, low, inside, cut)) = inr (k, omega arith, inside, cut)

module _ (contents : Bytes) where
  lex_loop-round :
      (fuel start i : ℕ) {round : Round}
      → ltb i (length contents) ≡ true
      → lex_round contents i ≡ round
      → lex_loop (suc fuel) contents start i
        ≡ elim round [ skips j ↦ lex_loop fuel contents start j | emits t ↦ some t | aborts ↦ none ]
  unfolding lex_loop
  lex_loop-round fuel start i e r = rw (e, r) refl

  abbrev LoopLexes : ℕ → ℕ → ℕ → Type 0
  LoopLexes fuel start i =
      (t : Lexed) × (lex_loop fuel contents start i ≡ some t) × Lexes (length contents) i t

  round-Lexes :
      (fuel start i : ℕ)
      → ((j : ℕ) → i < j → LoopLexes fuel start j)
      → ltb i (length contents) ≡ true
      → (round : Round) → lex_round contents i ≡ round
      → Rounds (length contents) i round
      → LoopLexes (suc fuel) start i
  round-Lexes fuel start i ih e (skips j) r (low, high) =
      let (t, same, lexes) = ih j low in
      (t, lex_loop-round fuel start i e r ∙ same, Lexes-later t (omega arith) lexes)
  round-Lexes fuel start i ih e (emits t) r cut =
      (t, lex_loop-round fuel start i e r, inr (i, omega arith, ground arith, cut))
  round-Lexes fuel start i ih e aborts r never = absurd never

  lex_loop-Lexes :
      (fuel start i : ℕ) → length contents < fuel + i → 0 < fuel → LoopLexes fuel start i
  unfolding lex_loop token
  lex_loop-Lexes zero start i enough pos = absurd (omega arith)
  lex_loop-Lexes (suc fuel) start i enough pos = elim (Bool-cases (ltb i (length contents))) [
    | inr e ↦ ((token end start (back i 1), i), rw e refl, inl (omega arith, ground arith, refl))
    | inl e ↦
        round-Lexes fuel start i (λ j low. lex_loop-Lexes fuel start j (omega arith) (ground arith))
          e (lex_round contents i) refl (lex_round-Rounds contents i (ground arith))
  ]

  pub lex-Lexes : (i : ℕ) → (t : Lexed) × (lex contents i ≡ some t) × Lexes (length contents) i t
  unfolding lex
  lex-Lexes i = lex_loop-Lexes (suc (length contents)) i i (omega arith) (omega arith)

  -- `lex` ends at every source and index, and never aborts: it returns the token `end` at the end of
  -- the source, or it moves the index, unless it is at the last byte.
  pub lex-ends :
      (i : ℕ)
      → (t : Lexed) × (lex contents i ≡ some t)
        × ((t.0.kind ≡ end × length contents ≤ t.1) ⊎ (i < t.1 ⊎ suc t.1 ≡ length contents))
  lex-ends i =
      let (t, same, lexes) = lex-Lexes i in
      (
        t,
        same,
        elim lexes [
          | inl (low, high, is_end) ↦ inl (is_end, high)
          | inr (k, low, inside, cut) ↦
              inr (elim (cut.moved) [ inl lt ↦ inl (omega arith) | inr e ↦ inr e ])
        ],
      )

-- Of a token that is consumed at `i` or later in a source of `n` bytes.
abbrev pub Inside : ℕ → ℕ → Lexed → Type 0
Inside n i t =
    (i ≤ t.0.location.first)
    × (t.0.location.first < n)
    × (t.0.location.first ≤ suc t.0.location.last)
    × (t.0.location.last < t.1)
    × (t.1 ≤ n)

Cut-Inside : {n k : ℕ} (t : Lexed) (i : ℕ) → n < 2 ^ 32 → 1 < n → i ≤ k → Cut n k t → Inside n i t
unfolding span back
Cut-Inside {n} {k} t i fits several low cut = (
  omega (arith, first_eq),
  omega (arith, first_eq),
  omega (arith, first_eq, last_eq),
  omega (arith, last_eq),
  omega arith,
)
  where
    first_eq : t.0.location.first ≡ cut.start
    first_eq = ap (λ l. l.first) cut.located ∙ (omega arith)

    last_eq : suc t.0.location.last ≡ cut.finish
    last_eq = ap (λ l. suc l.last) cut.located ∙ (ground arith)

-- In a source of at least two bytes and fewer than 2^32: a token that `lex` returns, other than `end`,
-- begins at the index or behind it and inside the source, and ends before the new index, which is
-- at most the length of the source. A token without text ends one byte before it begins.
pub lex-Inside :
    (contents : Bytes) (i : ℕ) (t : Lexed)
    → 1 < length contents
    → length contents < 2 ^ 32
    → lex contents i ≡ some t
    → t.0.kind ≡ end ⊎ Inside (length contents) i t
lex-Inside contents i t several fits run =
    let (t', same, lexes) = lex-Lexes contents i in
    let found : Lexes (length contents) i t =
      subst (Lexes (length contents) i) (some-injective _ _ (sym same ∙ run)) lexes in
    elim found [
      | inl (low, high, is_end) ↦ inl is_end
      | inr (k, low, inside, cut) ↦ inr (Cut-Inside t i fits several low cut)
    ]
