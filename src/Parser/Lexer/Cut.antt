-- ===== src/Parser/Lexer/Cut.antt =====
-- How the functions that consume a token move the index: none goes back, or over the end of the
-- source, and the token lies between the old index and the new one.
use verona.Prelude.{
  ℕ, suc, ◌+◌, ◌%◌, ◌^◌, ◌≤◌, ◌<◌, ◌≡◌, ◌==◌, refl, ap, ◌⊎◌, inl, inr, Bool, true, false, [], ◌∷◌,
  none, some, arith, length, drop, length-drop, Bool-cases, Option-cases, if-holds, get_elem?-none,
  ltb, ◌||◌, not,
}
use verona.Parser.Escaping.Bytes.{Bytes, at, table, table_lookup}
use verona.Parser.Lexer.Tokens.{
  TokenKind, dot, ellipsis, double_colon, colon, fat_arrow, equals, span, back, token,
}
use verona.Parser.Lexer.Classes.{x_class, z_class, lookup, classes}
use verona.Parser.Lexer.Symbols.{
  is_ellipsis, is_double_colon, colon_continues, is_fat_arrow, equal_continues, Lexed, next_while,
  continues_symbol, consume_invalid, consume_symbol, consume_dot, consume_builtin_symbol,
  builtin_kind, ident_end, consume_ident, consume_colon, consume_equal,
}

-- Of a token that is consumed at `i` in a source of `n` bytes: `finish` is the offset behind it.
pub record Cut (n i : ℕ) (t : Lexed) : Type 0 where
  pub start : ℕ
  pub finish : ℕ
  pub located : t.0.location ≡ span start (back finish 1)
  pub start_low : i ≤ start
  pub start_high : start < n
  pub in_order : start ≤ finish
  pub finish_high : finish ≤ t.1
  pub not_empty : 0 < finish ⊎ n ≡ 1
  pub moved : i < t.1 ⊎ suc t.1 ≡ n
  pub index_high : t.1 ≤ n

pub span_last : (s k m : ℕ) → m ≡ suc k → span s k ≡ span s (back m 1)
unfolding span back
span_last s k m e = ap (λ l. record { first = s % 2 ^ 32; last = l }) (omega arith)

module _ (n i : ℕ) where
  -- A token from `i` to the new index.
  pub Cut-here :
      (kind : TokenKind) (j : ℕ)
      → i < n
      → i ≤ j
      → i < j ⊎ suc j ≡ n
      → j ≤ n
      → Cut n i (token kind i (back j 1), j)
  unfolding token
  Cut-here kind j hi hj m hn = record {
    start = i;
    finish = j;
    located = refl;
    start_low = omega arith;
    start_high = hi;
    in_order = hj;
    finish_high = omega arith;
    not_empty = ground arith;
    moved = m;
    index_high = hn;
  }

  pub Cut-last :
      (kind : TokenKind) (j m : ℕ) → m ≡ suc j → i ≤ j → j < n → Cut n i (token kind i j, m)
  unfolding token
  Cut-last kind j m e hi hn = record {
    start = i;
    finish = m;
    located = span_last i j m e;
    start_low = omega arith;
    start_high = omega arith;
    in_order = omega arith;
    finish_high = omega arith;
    not_empty = inl (omega arith);
    moved = inl (omega arith);
    index_high = omega arith;
  }

pub next_while-bounds :
    (keeps : ℕ → Bool) (s : Bytes) (i : ℕ)
    → (i ≤ next_while keeps s i)
      × (next_while keeps s i ≤ i + length s)
      × (i < next_while keeps s i ⊎ length s ≡ 0)
unfolding next_while
next_while-bounds keeps [] i = (omega arith, omega arith, inr refl)
next_while-bounds keeps (c ∷ s) i =
    let (low, high, m) = next_while-bounds keeps s (suc i) in
    (ground arith, ground arith, inl (ground arith))

next_while-Cut :
    (kind : TokenKind) (keeps : ℕ → Bool) (contents : Bytes) (i : ℕ)
    → i < length contents
    → let j = next_while keeps (drop (suc i) contents) i in
      Cut (length contents) i (token kind i (back j 1), j)
next_while-Cut kind keeps contents i h =
    let (low, high, m) = next_while-bounds keeps (drop (suc i) contents) i in
    let len = length-drop (suc i) contents in
    Cut-here (length contents) i kind _ h low (ground arith) (omega arith)

pub consume_invalid-Cut :
    (contents : Bytes) (i : ℕ)
    → i < length contents
    → Cut (length contents) i (consume_invalid contents i)
unfolding consume_invalid
consume_invalid-Cut contents i h = next_while-Cut _ (λ k. k == x_class) contents i h

pub consume_symbol-Cut :
    (contents : Bytes) (i : ℕ)
    → i < length contents
    → Cut (length contents) i (consume_symbol contents i)
unfolding consume_symbol
consume_symbol-Cut contents i h = next_while-Cut _ continues_symbol contents i h

consume_dot-Cut :
    (contents : Bytes) (i : ℕ)
    → i < length contents
    → Cut (length contents) i (consume_dot contents i)
unfolding consume_dot
consume_dot-Cut contents i h =
    let n = length contents in
    if-holds (Cut n i) (is_ellipsis contents i)
      (λ t. Cut-last n i ellipsis (i + 2) (i + 3) (omega arith) (omega arith) (ground arith))
      (λ f. Cut-last n i dot i (i + 1) (omega arith) (omega arith) h)

-- The bytes that the switch has a case for.
unfoldable has_case : ℕ → Bool
has_case c = (c == b'.') || (elim (builtin_kind c) [ none ↦ false | some kind ↦ true ])

has_case-table : table (λ c. not (lookup c == z_class) || has_case c) 256 ≡ true
unfolding table lookup classes has_case builtin_kind
has_case-table = refl

-- Above the table there is no byte.
pub lookup-above : (c : ℕ) → 256 ≤ c → lookup c ≡ x_class
unfolding lookup
lookup-above c h = rw (get_elem?-none classes c (unfold classes in h)) refl

implied :
    (c : ℕ)
    → (not (lookup c == z_class) || has_case c) ≡ true
    → lookup c ≡ z_class
    → has_case c ≡ true
implied c h z = ground arith

lookup-has_case : (c : ℕ) → lookup c ≡ z_class → has_case c ≡ true
lookup-has_case c h = elim (Bool-cases (ltb c 256)) [
  | inl lt ↦ implied c (table_lookup _ has_case-table (ground arith)) h
  | inr ge ↦ absurd (cc (lookup-above c (ground arith)))
]

no_case : (c : ℕ) → (c == b'.') ≡ false → builtin_kind c ≡ none → has_case c ≡ false
unfolding has_case
no_case c e e' = rw (e, e') refl

pub consume_builtin_symbol-Cut :
    (contents : Bytes) (i : ℕ)
    → i < length contents
    → lookup (at contents i) ≡ z_class
    → (t : Lexed) × (consume_builtin_symbol contents i ≡ some t) × Cut (length contents) i t
unfolding consume_builtin_symbol has_case
consume_builtin_symbol-Cut contents i h z = elim (Bool-cases (at contents i == b'.')) [
  | inl e ↦ (consume_dot contents i, rw e refl, consume_dot-Cut contents i h)
  | inr e ↦ elim (Option-cases (builtin_kind (at contents i))) [
    | inl e' ↦ absurd (cc (lookup-has_case _ z, no_case _ e e'))
    | inr (kind, e') ↦ (
      (token kind i i, i + 1),
      rw (e, e') refl,
      Cut-last (length contents) i kind i (i + 1) (omega arith) (omega arith) h,
    )
  ]
]

pub ident_end-bounds :
    (s : Bytes) (i : ℕ) → (i < ident_end s i) × (ident_end s i ≤ suc i + length s)
unfolding ident_end
ident_end-bounds [] i = (omega arith, omega arith)
ident_end-bounds (c ∷ s) i =
    let (low, high) = ident_end-bounds s (suc i) in (ground arith, ground arith)

pub consume_ident-Cut :
    (contents : Bytes) (i : ℕ)
    → i < length contents
    → Cut (length contents) i (consume_ident contents i)
unfolding consume_ident
consume_ident-Cut contents i h =
    let (low, high) = ident_end-bounds (drop (suc i) contents) i in
    let len = length-drop (suc i) contents in
    Cut-here (length contents) i _ _ h (omega arith) (inl low) (omega arith)

pub consume_colon-Cut :
    (contents : Bytes) (i : ℕ)
    → i < length contents
    → Cut (length contents) i (consume_colon contents i)
unfolding consume_colon
consume_colon-Cut contents i h =
    let n = length contents in
    if-holds (Cut n i) (is_double_colon contents i)
      (λ t. Cut-here n i double_colon (i + 2) h (omega arith) (inl (omega arith)) (ground arith))
      (λ f.
        if-holds (Cut n i) (colon_continues contents i) (λ t. consume_symbol-Cut contents i h)
          (λ f'. Cut-here n i colon (suc i) h (omega arith) (inl (omega arith)) (omega arith)))

pub consume_equal-Cut :
    (contents : Bytes) (i : ℕ)
    → i < length contents
    → Cut (length contents) i (consume_equal contents i)
unfolding consume_equal
consume_equal-Cut contents i h =
    let n = length contents in
    if-holds (Cut n i) (is_fat_arrow contents i)
      (λ t. Cut-here n i fat_arrow (i + 2) h (omega arith) (inl (omega arith)) (ground arith))
      (λ f.
        if-holds (Cut n i) (equal_continues contents i) (λ t. consume_symbol-Cut contents i h)
          (λ f'. Cut-here n i equals (suc i) h (omega arith) (inl (omega arith)) (omega arith)))
