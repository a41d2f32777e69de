-- ===== src/Parser/Escaping/Source.antt =====
-- `escapedstring` of src/parser/escaping.cc reads back what `escape` writes.
use Prim.Native.Nat.{bit_and}
use verona.Prelude.{
  ℕ, zero, suc, ◌/◌, ◌^◌, ◌<◌, ◌≡◌, refl, sym, ap, subst, ◌∙◌, inl, inr, Bool, true, false, not,
  ◌&&◌, none, some, [], ◌∷◌, arith, ◌==◌, All, All-append, Option-cases,
}
use verona.Parser.Escaping.Bytes.{
  Bytes, at, to_hex, is_utf8cont, is_utf8cont_lem, table, table_lookup,
}
use verona.Parser.Escaping.Check.{is_utf8, every_step, is_unescaped}
use verona.Parser.Escaping.Escape.{letter_of, escape_byte, escape_loop, escape}
use verona.Parser.Escaping.Unescape.{unescape}
use verona.Parser.Escaping.Blank.{
  find_first_not_of, find_last_not_of, trim_leading, trim_trailing, trimblanklines, escapedstring,
}
use verona.Parser.Escaping.Lines.{pairs_replaced, crlf2lf-pairs_replaced}
use verona.Parser.Escaping.RoundTrip.{
  AreBytes, Cont, is_start, is_utf8-cases, escape_byte-letter, escape_byte-default,
  escape_byte-count, escape_default-cases, every_step-some, every_step-none, every_step-skip,
  unescape-escape,
}

-- Neither '\n' nor '\r'.
abbrev is_plain : ℕ → Bool
is_plain c = not (c == 0x0A) && not (c == 0x0D)

abbrev ArePlain : Bytes → Type 0
ArePlain = All (λ c. is_plain c ≡ true)

the_pair : (c d : ℕ) → is_plain c ≡ true → (c == 0x0D && d == 0x0A) ≡ false
the_pair c d h = ground arith

pairs_replaced-plain : (s : Bytes) → ArePlain s → pairs_replaced s ≡ s
pairs_replaced-plain [] h = refl
pairs_replaced-plain (c ∷ []) h = refl
pairs_replaced-plain (c ∷ d ∷ s) (hc, (hd, h)) =
    rw (the_pair c d hc) (ap (λ r. c ∷ r) (pairs_replaced-plain (d ∷ s) (hd, h)))

at-plain : (s : Bytes) (i : ℕ) → ArePlain s → (at s i == 0x0A) ≡ false
at-plain [] i h = refl
at-plain (c ∷ s) zero (hc, h) = ground arith
at-plain (c ∷ s) (suc i) (hc, h) = at-plain s i h

trim_leading-plain : (s : Bytes) → ArePlain s → trim_leading s ≡ s
unfolding trim_leading
trim_leading-plain s h = elim (Option-cases (find_first_not_of s)) [
  | inl e ↦ rw (e, trim_leading) refl
  | inr (k, e) ↦ rw (e, trim_leading) (rw (at-plain s k h) refl)
]

trim_trailing-plain : (s : Bytes) → ArePlain s → trim_trailing s ≡ s
unfolding trim_trailing
trim_trailing-plain s h = elim (Option-cases (find_last_not_of s)) [
  | inl e ↦ rw (e, trim_trailing) refl
  | inr (k, e) ↦ rw (e, trim_trailing) (rw (at-plain s k h) refl)
]

letter_of-plain : (c : ℕ) {e : ℕ} → letter_of c ≡ some e → is_plain e ≡ true
unfolding letter_of
letter_of-plain c h = ground arith

letter_of-none : (c : ℕ) → letter_of c ≡ none → is_plain c ≡ true
unfolding letter_of
letter_of-none c h = ground arith

hex_plain_table :
    table (λ c. is_plain (to_hex (c / 2 ^ 4)) && is_plain (to_hex (bit_and c 0x0F))) 128 ≡ true
unfolding table to_hex
hex_plain_table = refl

hex_plain :
    (c : ℕ)
    → c < 128
    → (is_plain (to_hex (c / 2 ^ 4)) ≡ true) × (is_plain (to_hex (bit_and c 0x0F)) ≡ true)
hex_plain c h = ground (arith, table_lookup _ hex_plain_table h)

escape_byte-ArePlain : (c : ℕ) → c < 256 → is_start c ≡ true → ArePlain (escape_byte c).0
escape_byte-ArePlain c h v = elim (Option-cases (letter_of c)) [
  | inr (e, he) ↦ rw (escape_byte-letter c he) (refl, (letter_of-plain c he, tt))
  | inl no_letter ↦ rw (escape_byte-default c no_letter) (elim (escape_default-cases c h v) [
    | inl plain ↦ rw plain (letter_of-none c no_letter, tt)
    | inr (lt, written) ↦ let (ha, hb) = hex_plain c lt in rw written (refl, (refl, (ha, (hb, tt))))
  ])
]

continuing_plain : (c : ℕ) → c < 256 → is_utf8cont c ≡ true → is_plain c ≡ true
continuing_plain c h v = ground (arith, is_utf8cont_lem c h)

escape_loop-ArePlain :
    (k : ℕ) (s : Bytes)
    → AreBytes s
    → Cont k s
    → every_step is_utf8 k s ≡ true
    → ArePlain (escape_loop k s)
unfolding escape_loop
escape_loop-ArePlain k [] b f v = tt
escape_loop-ArePlain (suc k) (c ∷ s) (hc, b) (fc, f) v =
    (continuing_plain c hc fc, escape_loop-ArePlain k s b f (sym (every_step-skip k c s) ∙ v))
escape_loop-ArePlain zero (c ∷ s) (hc, b) f v = elim (Option-cases (is_utf8 c s)) [
  | inl none_here ↦ ground (arith, every_step-none is_utf8 c s none_here)
  | inr (k, hk) ↦
      let (start, count, rest) = is_utf8-cases c k s hk in
      All-append _ (escape_byte c).0 _ (escape_byte-ArePlain c hc start) (
        subst (λ j. ArePlain (escape_loop j s)) (sym (escape_byte-count c hc ∙ count))
          (escape_loop-ArePlain k s b rest (sym (every_step-some is_utf8 c s hk) ∙ v)))
]

escape-ArePlain : (s : Bytes) → AreBytes s → is_unescaped s ≡ true → ArePlain (escape s)
unfolding escape is_unescaped
escape-ArePlain s b v = escape_loop-ArePlain 0 s b tt v

escapedstring-plain : (s : Bytes) → ArePlain s → escapedstring s ≡ unescape s
unfolding escapedstring trimblanklines
escapedstring-plain s h =
    ap (λ r. unescape (trim_trailing (trim_leading r)))
      (crlf2lf-pairs_replaced s ∙ pairs_replaced-plain s h)
    ∙ ap (λ r. unescape (trim_trailing r)) (trim_leading-plain s h)
    ∙ ap unescape (trim_trailing-plain s h)

-- For bytes `s` that are valid UTF-8, `escapedstring`, which is given the text of a literal, turns
-- `escape s` back into `s`.
pub escapedstring-escape :
    (s : Bytes) → AreBytes s → is_unescaped s ≡ true → escapedstring (escape s) ≡ s
escapedstring-escape s b v =
    escapedstring-plain (escape s) (escape-ArePlain s b v) ∙ unescape-escape s b v
