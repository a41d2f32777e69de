-- ===== src/Parser/Lexer/CutLiterals.antt =====
-- How the functions that consume a number, a literal or a string move the index.
use verona.Prelude.{
  ℕ, suc, ◌+◌, ◌-◌, ◌≤◌, ◌<◌, ◌≡◌, ◌==◌, refl, ap, subst, sym, ◌%◌, ◌^◌, ◌⊎◌, inl, inr, Bool, true,
  false, [], ◌∷◌, arith, length, drop, length-drop, Bool-cases, if-holds, not, ◌&&◌,
}
use verona.Parser.Escaping.Bytes.{Bytes, at}
use verona.Parser.Escaping.Check.{is_escaped, is_unescaped}
use verona.Parser.Lexer.Tokens.{
  TokenKind, span, back, token, view, invalid, character, escaped_string,
}
use verona.Parser.Lexer.Cut.{Cut, Cut-here}
use verona.Parser.Lexer.Numbers.{
  NumberState, leading_zero, int_digits, has_dot, exponent1, exponent2, Turn, goes, stops,
  number_step, number_loop, number_kind, consume_number,
}
use verona.Parser.Lexer.Quotes.{
  Closing, closed, unclosed, literal_loop, close_literal, consume_character_literal,
  consume_escaped_string, StringState, nesting, terminating, Progress, double_quote, prime,
  unescaped_step, unescaped_loop, close_unescaped, consume_unescaped_string, primes_end,
  consume_string,
}

-- How many bytes behind the first the loop has read in a state, at least.
abbrev need : NumberState → ℕ
need has_dot = 1
need exponent1 = 1
need exponent2 = 2
need _ = 0

abbrev Kept : ℕ → Turn → Type 0
Kept n (goes after) = need after ≤ suc n
Kept n (stops after k) = k ≤ n

number_step-Kept : (state : NumberState) (c : ℕ) → Kept (need state) (number_step state c)
unfolding number_step
number_step-Kept leading_zero c = ground arith
number_step-Kept _ c = ground arith

Turn-cases :
    (turn : Turn)
    → ((after : NumberState) × (turn ≡ goes after))
      ⊎ ((after : NumberState) × (k : ℕ) × (turn ≡ stops after k))
Turn-cases (goes after) = inl (after, refl)
Turn-cases (stops after k) = inr (after, k, refl)

number_loop-bounds :
    (state : NumberState) (s : Bytes) (start i : ℕ)
    → start + need state ≤ i
    → let j = (number_loop state s i).1 in (start < j) × (j ≤ suc i + length s)
unfolding number_loop
number_loop-bounds state [] start i h = (omega arith, omega arith)
number_loop-bounds state (c ∷ s) start i h =
    let kept = number_step-Kept state c in
    elim (Turn-cases (number_step state c)) [
      | inl (after, e) ↦
          let small = subst (Kept (need state)) e kept in
          rw (e, number_loop)
            (let (low, high) = number_loop-bounds after s start (suc i) (omega arith) in
              (low, omega arith))
      | inr (after, k, e) ↦
          let small = subst (Kept (need state)) e kept in
          rw (e, number_loop) (omega arith, omega arith)
    ]

module _ (contents : Bytes) (i : ℕ) (h : i < length contents) where
  number_from :
      (state : NumberState)
      → need state ≡ 0
      → let (last, j) = number_loop state (drop (suc i) contents) i in
        Cut (length contents) i (token (number_kind last) i (back j 1), j)
  number_from state e =
      let (low, high) = number_loop-bounds state (drop (suc i) contents) i i (omega arith) in
      let len = length-drop (suc i) contents in
      Cut-here (length contents) i _ _ h (omega arith) (inl low) (omega arith)

  pub consume_number-Cut : Cut (length contents) i (consume_number contents i)
  unfolding consume_number
  consume_number-Cut = elim (Bool-cases (at contents i == b'0')) [
    | inl e ↦ rw e (number_from leading_zero refl)
    | inr e ↦ rw e (number_from int_digits refl)
  ]

-- Of a loop that is at `i` in a source of `n` bytes: it closes behind at least `len` bytes more, or
-- reads to the end.
abbrev Leaves : ℕ → ℕ → ℕ → Closing → Type 0
Leaves n i len (closed j) = (i + len < j) × (j < n)
Leaves n i len (unclosed j) = j ≡ n

literal_loop-Leaves :
    (quote n start i : ℕ) (backslash : Bool) (s : Bytes)
    → start ≤ i
    → suc i + length s ≡ n
    → Leaves n start 0 (literal_loop quote backslash s i)
unfolding literal_loop
literal_loop-Leaves quote n start i backslash [] h e = omega arith
literal_loop-Leaves quote n start i backslash (c ∷ s) h e =
    let rest =
      literal_loop-Leaves quote n start (suc i) (c == 0x5C) s (omega arith) (omega arith) in
    if-holds (Leaves n start 0) ((c == quote) && not backslash) (λ t. (omega arith, omega arith))
      (λ f. rest)

close_literal-Cut :
    (kind : TokenKind) (contents : Bytes) (i : ℕ) (closing : Closing)
    → i < length contents
    → Leaves (length contents) i 0 closing
    → Cut (length contents) i (close_literal kind contents i closing)
unfolding close_literal
close_literal-Cut kind contents i (unclosed j) h e =
    Cut-here (length contents) i invalid j h (omega arith) (inl (omega arith)) (omega arith)
close_literal-Cut kind contents i (closed j) h (low, high) =
    let n = length contents in
    if-holds (Cut n i) (not (is_escaped (view contents (span (i + 1) (back j 1)))))
      (λ t. Cut-here n i invalid (suc j) h (omega arith) (inl (omega arith)) high)
      (λ f. record {
        start = i + 1;
        finish = j;
        located = refl;
        start_low = omega arith;
        start_high = omega arith;
        in_order = omega arith;
        finish_high = omega arith;
        not_empty = inl (omega arith);
        moved = inl (omega arith);
        index_high = omega arith;
      })

module _ (contents : Bytes) (i : ℕ) (h : i < length contents) where
  literal-Cut :
      (kind : TokenKind) (quote : ℕ)
      → Cut
          (length contents)
          i
          (close_literal kind contents i (literal_loop quote false (drop (suc i) contents) i))
  literal-Cut kind quote =
      let len = length-drop (suc i) contents in
      close_literal-Cut kind contents i _ h
        (literal_loop-Leaves quote (length contents) i i false _ (omega arith) (omega arith))

  consume_character_literal-Cut : Cut (length contents) i (consume_character_literal contents i)
  unfolding consume_character_literal
  consume_character_literal-Cut = literal-Cut character 0x27

  consume_escaped_string-Cut : Cut (length contents) i (consume_escaped_string contents i)
  unfolding consume_escaped_string
  consume_escaped_string-Cut = literal-Cut escaped_string 0x22

-- The bytes that a string has read behind its opening quote to be where it is in a terminator.
abbrev reading : Progress → ℕ
reading p = elim p.state [ nesting ↦ 0 | terminating ↦ suc p.count ]

abbrev Step : ℕ → ℕ → ℕ → Progress → Type 0
Step len start i p = (p.depth ≡ 0 × start + len < i) ⊎ (0 < p.depth × start + reading p ≤ i)

unescaped_step-Step :
    (len start i : ℕ) (state : StringState) (count depth c : ℕ)
    → 0 < depth
    → start + reading (record { state = state; count = count; depth = depth }) ≤ i
    → Step len start
        (suc i)
        (unescaped_step len (record { state = state; count = count; depth = depth }) c)
unfolding unescaped_step double_quote prime
unescaped_step-Step len start i nesting count depth c d h =
    if-holds (Step len start (suc i)) (c == 0x22)
      (λ t.
        if-holds (Step len start (suc i)) (count == len) (λ t. inr (omega arith, omega arith))
          (λ f. inr (d, omega arith)))
      (λ f.
        if-holds (Step len start (suc i)) (c == 0x27)
          (λ t.
            if-holds (Step len start (suc i)) (count + 1 == len) (λ t. inr (d, omega arith))
              (λ f. inr (d, omega arith)))
          (λ f. inr (d, omega arith)))
unescaped_step-Step len start i terminating count depth c d h =
    if-holds (Step len start (suc i)) (c == 0x22) (λ t. inr (d, omega arith))
      (λ f.
        if-holds (Step len start (suc i)) (c == 0x27)
          (λ t.
            if-holds (Step len start (suc i)) (count + 1 == len) (λ t. ground arith)
              (λ f. inr (d, omega arith)))
          (λ f. inr (d, omega arith)))

unescaped_loop-Leaves :
    (len n start i : ℕ) (p : Progress) (s : Bytes)
    → 0 < p.depth
    → start + reading p ≤ i
    → suc i + length s ≡ n
    → Leaves n start len (unescaped_loop len p s i)
unfolding unescaped_loop
unescaped_loop-Leaves len n start i p [] d h e = omega arith
unescaped_loop-Leaves len n start i p (c ∷ s) d h e =
    if-holds (Leaves n start len) ((unescaped_step len p c).depth == 0)
      (λ t. elim step [ inl (_, low) ↦ (low, omega arith) | inr (pos, _) ↦ absurd (ground arith) ])
      (λ f. elim step [
        | inl (zero_depth, _) ↦ absurd (ground arith)
        | inr (pos, low) ↦ unescaped_loop-Leaves len n start (suc i) _ s pos low (omega arith)
      ])
  where
    step : Step len start (suc i) (unescaped_step len p c)
    step = unescaped_step-Step len start i p.state p.count p.depth c d h

back_both : (s j len : ℕ) → len < j → span s (back j (len + 1)) ≡ span s (back (j - len) 1)
unfolding span back
back_both s j len h = ap (λ l. record { first = s % 2 ^ 32; last = l }) (omega arith)

close_unescaped-Cut :
    (contents : Bytes) (start len : ℕ) (closing : Closing)
    → start + len < length contents
    → Leaves (length contents) (start + len) len closing
    → Cut (length contents) start (close_unescaped contents start len closing)
unfolding close_unescaped
close_unescaped-Cut contents start len (unclosed j) h e =
    Cut-here (length contents) start invalid j (omega arith) (omega arith) (inl (omega arith))
      (omega arith)
close_unescaped-Cut contents start len (closed j) h (low, high) =
    let n = length contents in
    if-holds (Cut n start)
      (not (is_unescaped (view contents (span (start + len + 1) (back j (len + 1))))))
      (λ t. Cut-here n start invalid (suc j) (omega arith) (omega arith) (inl (omega arith)) high)
      (λ f. record {
        start = start + len + 1;
        finish = j - len;
        located = back_both _ j len (omega arith);
        start_low = omega arith;
        start_high = omega arith;
        in_order = omega arith;
        finish_high = omega arith;
        not_empty = inl (omega arith);
        moved = inl (omega arith);
        index_high = omega arith;
      })

primes_end-bounds :
    (s : Bytes) (i : ℕ)
    → let (j, opens) = primes_end s i in
      (i < j) × (j ≤ suc i + length s) × (opens ≡ true → j ≤ i + length s)
unfolding primes_end
primes_end-bounds [] i = (omega arith, omega arith, λ e. cc)
primes_end-bounds (c ∷ s) i = elim (Bool-cases (c == 0x27)) [
  | inl e ↦
      let (low, high, opens) = primes_end-bounds s (suc i) in
      rw e (omega arith, omega arith, λ t. omega (arith, opens t))
  | inr e ↦ rw e (omega arith, omega arith, λ t. omega arith)
]

module _ (contents : Bytes) (i : ℕ) where
  consume_unescaped_string-Cut :
      (j : ℕ)
      → i ≤ j
      → j < length contents
      → Cut (length contents) i (consume_unescaped_string contents j (j - i))
  unfolding consume_unescaped_string
  consume_unescaped_string-Cut j low high =
      let n = length contents in
      let len = length-drop (suc j) contents in
      let opened : Progress = record { state = nesting; count = 0; depth = 1 } in
      let closing = unescaped_loop (j - i) opened (drop (suc j) contents) j in
      let leaves =
        unescaped_loop-Leaves (j - i) n j j opened (drop (suc j) contents) (omega arith)
          (omega arith) (omega arith) in
      let there : i + (j - i) ≡ j = omega arith in
      subst (λ start. Cut n i (close_unescaped contents start (j - i) closing)) {x = i}
        {y = j - (j - i)} (omega arith)
        (close_unescaped-Cut contents i (j - i) closing (omega arith)
          (subst (λ k. Leaves n k (j - i) closing) (sym there) leaves))

  pub consume_string-Cut : i < length contents → Cut (length contents) i (consume_string contents i)
  unfolding consume_string
  consume_string-Cut h =
      let n = length contents in
      let (j, opens) = primes_end (drop (suc i) contents) i in
      let (low, high, before) = primes_end-bounds (drop (suc i) contents) i in
      let len = length-drop (suc i) contents in
      if-holds (Cut n i) (at contents i == 0x22) (λ t. consume_escaped_string-Cut contents i h)
        (λ f.
          if-holds (Cut n i) opens
            (λ t. consume_unescaped_string-Cut j (omega arith) (omega (arith, before t)))
            (λ f.
              if-holds (Cut n i) (j - i == 1)
                (λ t.
                  subst (λ k. Cut n i (consume_character_literal contents k)) {x = i} {y = j - 1}
                    (ground arith) (consume_character_literal-Cut contents i h))
                (λ f.
                  Cut-here n i invalid (i + 2) h (omega arith) (inl (omega arith)) (ground arith))))
