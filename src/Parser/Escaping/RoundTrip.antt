-- ===== src/Parser/Escaping/RoundTrip.antt =====
-- `unescape` undoes `escape` on valid UTF-8.
use Prim.Native.Nat.{bit_and, bit_or}
use verona.Prelude.{
  ℕ, zero, suc, ◌*◌, ◌/◌, ◌^◌, ◌<◌, ◌≡◌, refl, sym, ap, ◌∙◌, ◌⊎◌, inl, inr, Bool, true, false, ◌&&◌,
  ◌||◌, Option, none, some, [], ◌∷◌, ◌++◌, arith, ◌==◌, if◌then◌else◌, All, Option-cases,
}
use verona.Parser.Escaping.Bytes.{
  Bytes, is_hex, is_utf8cont, to_hex, from_hex, is_one, is_two, is_three, is_four, is_one_lem,
  is_two_lem, is_three_lem, is_four_lem, is_utf8cont_lem, table, table_lookup,
}
use verona.Parser.Escaping.Check.{is_utf8, every_step, is_unescaped, is_xescape}
use verona.Parser.Escaping.Escape.{letter_of, escape_default, escape_byte, escape_loop, escape}
use verona.Parser.Escaping.Unescape.{
  digits, read_hex, encode, reveal_letter, reveal, unescape_loop, unescape,
}

abbrev pub AreBytes : Bytes → Type 0
AreBytes = All (λ c. c < 256)

-- The first `k` bytes are there and continue a sequence.
abbrev pub Cont : ℕ → Bytes → Type 0
Cont zero s = Unit
Cont (suc k) [] = ⊥
Cont (suc k) (c ∷ s) = (is_utf8cont c ≡ true) × Cont k s

-- A letter escape is read back.
letter-reveal :
    (c : ℕ) {e : ℕ}
    → letter_of c ≡ some e
    → (reveal_letter e ≡ c) × (((e == b'x') || (e == b'u') || (e == b'U')) ≡ false)
unfolding letter_of reveal_letter
letter-reveal c h = ground arith

-- A byte that is written as two digits is read back from them.
hex_table :
    table
      (λ c.
        is_hex (to_hex (c / 2 ^ 4))
        && is_hex (to_hex (bit_and c 0x0F))
        && (bit_or
              (bit_or 0 (from_hex (to_hex (c / 2 ^ 4)) * 2 ^ 4))
              (from_hex (to_hex (bit_and c 0x0F)) * 2 ^ 0)
            == c))
      128
    ≡ true
unfolding table is_hex to_hex from_hex
hex_table = refl

hex_facts :
    (c : ℕ)
    → c < 128
    → (is_hex (to_hex (c / 2 ^ 4)) ≡ true)
      × (is_hex (to_hex (bit_and c 0x0F)) ≡ true)
      × (bit_or
            (bit_or 0 (from_hex (to_hex (c / 2 ^ 4)) * 2 ^ 4))
            (from_hex (to_hex (bit_and c 0x0F)) * 2 ^ 0)
          ≡ c)
hex_facts c h = ground (arith, table_lookup _ hex_table h)

digits_two : (a b : ℕ) (r : Bytes) → is_hex a ≡ true → is_hex b ≡ true → digits b'x' (a ∷ b ∷ r) ≡ 2
unfolding digits is_xescape
digits_two a b r ha hb = ground arith

encode_small : (c : ℕ) → c < 128 → encode c ≡ c ∷ []
unfolding encode
encode_small c h = ground arith

reveal_two :
    (a b : ℕ) (r : Bytes)
    → is_hex a ≡ true
    → is_hex b ≡ true
    → reveal b'x' (a ∷ b ∷ r) ≡ encode (bit_or (bit_or 0 (from_hex a * 2 ^ 4)) (from_hex b * 2 ^ 0))
unfolding reveal read_hex
reveal_two a b r ha hb = rw (digits_two a b r ha hb)

two_digits :
    (c : ℕ) (r : Bytes)
    → c < 128
    → (digits b'x' (to_hex (c / 2 ^ 4) ∷ to_hex (bit_and c 0x0F) ∷ r) ≡ 2)
      × (reveal b'x' (to_hex (c / 2 ^ 4) ∷ to_hex (bit_and c 0x0F) ∷ r) ≡ c ∷ [])
two_digits c r h =
    let (ha, hb, v) = hex_facts c h in
    (digits_two _ _ r ha hb, reveal_two _ _ r ha hb ∙ ap encode v ∙ encode_small c h)

pub escape_byte-letter : (c : ℕ) {e : ℕ} → letter_of c ≡ some e → escape_byte c ≡ (0x5C ∷ e ∷ [], 0)
unfolding escape_byte
escape_byte-letter c h = rw (h, escape_byte)

pub escape_byte-default : (c : ℕ) → letter_of c ≡ none → escape_byte c ≡ escape_default c
unfolding escape_byte
escape_byte-default c h = rw (h, escape_byte)

letter_of-backslash : (c : ℕ) → letter_of c ≡ none → (c == 0x5C) ≡ false
unfolding letter_of
letter_of-backslash c h = ground arith

abbrev pub is_start : ℕ → Bool
is_start c = is_one c || is_two c || is_three c || is_four c

-- Without a letter the byte is written as it is, or as two digits.
pub escape_default-cases :
    (c : ℕ)
    → c < 256
    → is_start c ≡ true
    → ((escape_default c).0 ≡ c ∷ [])
      ⊎ ((c < 128)
          × ((escape_default c).0
              ≡ 0x5C ∷ b'x' ∷ to_hex (c / 2 ^ 4) ∷ to_hex (bit_and c 0x0F) ∷ []))
unfolding escape_default
escape_default-cases c h v =
    ground (arith, is_one_lem c h, is_two_lem c h, is_three_lem c h, is_four_lem c h)

read-plain :
    (c : ℕ) (r : Bytes)
    → (c == 0x5C) ≡ false
    → unescape_loop 0 false (c ∷ r) ≡ c ∷ unescape_loop 0 false r
unfolding unescape_loop
read-plain c r h = rw h

read-letter :
    (c e : ℕ) (r : Bytes)
    → letter_of c ≡ some e
    → unescape_loop 0 false (0x5C ∷ e ∷ r) ≡ c ∷ unescape_loop 0 false r
unfolding unescape_loop reveal digits
read-letter c e r h = ground (arith, letter-reveal c h)

read-escape :
    (e : ℕ) (r : Bytes)
    → unescape_loop 0 false (0x5C ∷ e ∷ r) ≡ reveal e r ++ unescape_loop (digits e r) false r
unfolding unescape_loop
read-escape e r = refl

skip_two : (a b : ℕ) (r : Bytes) → unescape_loop 2 false (a ∷ b ∷ r) ≡ unescape_loop 0 false r
unfolding unescape_loop
skip_two a b r = refl

read-digits :
    (c : ℕ) (r : Bytes)
    → c < 128
    → unescape_loop 0 false (0x5C ∷ b'x' ∷ to_hex (c / 2 ^ 4) ∷ to_hex (bit_and c 0x0F) ∷ r)
      ≡ c ∷ unescape_loop 0 false r
read-digits c r h = let (d, v) = two_digits c r h in rw (read-escape, v, d, skip_two)

-- What `escape` writes for a byte that starts a sequence is read back as the byte.
escape_byte-read :
    (c : ℕ) (r : Bytes)
    → is_start c ≡ true
    → c < 256
    → unescape_loop 0 false ((escape_byte c).0 ++ r) ≡ c ∷ unescape_loop 0 false r
escape_byte-read c r v h = elim (Option-cases (letter_of c)) [
  | inr (e, he) ↦ rw (escape_byte-letter c he) (read-letter c e r he)
  | inl no_letter ↦ rw (escape_byte-default c no_letter) (elim (escape_default-cases c h v) [
    | inl plain ↦ rw plain (read-plain c r (letter_of-backslash c no_letter))
    | inr (lt, digits_written) ↦ rw digits_written (read-digits c r lt)
  ])
]

-- A byte with an escape of its own is a sequence of one byte.
letter_of-small : (c : ℕ) {e : ℕ} → letter_of c ≡ some e → c < 128
unfolding letter_of
letter_of-small c h = ground arith

-- How many bytes follow the first byte of a sequence.
abbrev pub count_of : ℕ → ℕ
count_of c =
    if is_one c
    then 0
    else if is_two c
    then 1
    else if is_three c
    then 2
    else if is_four c
    then 3
    else 0

-- Where a sequence starts, `escape` copies as many bytes as `is_utf8` passes over.
pub is_utf8-cases :
    (c k : ℕ) (s : Bytes) → is_utf8 c s ≡ some k → (is_start c ≡ true) × (count_of c ≡ k) × Cont k s
unfolding is_utf8
is_utf8-cases c k [] e = ground arith
is_utf8-cases c k (a ∷ []) e = ground arith
is_utf8-cases c k (a ∷ b ∷ []) e = ground arith
is_utf8-cases c k (a ∷ b ∷ d ∷ s) e = ground arith

-- What `escape` writes, by the classes of bytes.
escape_default-count : (c : ℕ) → c < 256 → (escape_default c).1 ≡ count_of c
unfolding escape_default
escape_default-count c h =
    ground (arith, is_one_lem c h, is_two_lem c h, is_three_lem c h, is_four_lem c h)

count_of-small : (c : ℕ) → c < 128 → count_of c ≡ 0
count_of-small c h = ground (arith, is_one_lem c (omega arith))

pub escape_byte-count : (c : ℕ) → c < 256 → (escape_byte c).1 ≡ count_of c
escape_byte-count c h = elim (Option-cases (letter_of c)) [
  | inr (e, he) ↦ rw (escape_byte-letter c he) (sym (count_of-small c (letter_of-small c he)))
  | inl no_letter ↦ rw (escape_byte-default c no_letter) (escape_default-count c h)
]

pub every_step-some :
    (test : ℕ → Bytes → Option ℕ) (c : ℕ) {k : ℕ} (s : Bytes)
    → test c s ≡ some k
    → every_step test 0 (c ∷ s) ≡ every_step test k s
unfolding every_step
every_step-some test c s h = rw (h, every_step)

pub every_step-none :
    (test : ℕ → Bytes → Option ℕ) (c : ℕ) (s : Bytes)
    → test c s ≡ none
    → every_step test 0 (c ∷ s) ≡ false
unfolding every_step
every_step-none test c s h = rw (h, every_step)

continuing-is_plain : (c : ℕ) → c < 256 → is_utf8cont c ≡ true → (c == 0x5C) ≡ false
continuing-is_plain c h v = ground (arith, is_utf8cont_lem c h)

pub every_step-skip :
    (k c : ℕ) (s : Bytes) → every_step is_utf8 (suc k) (c ∷ s) ≡ every_step is_utf8 k s
unfolding every_step
every_step-skip k c s = refl

unescape_loop-nil : unescape_loop 0 false [] ≡ []
unfolding unescape_loop
unescape_loop-nil = refl

round :
    (k : ℕ) (s : Bytes)
    → AreBytes s
    → Cont k s
    → every_step is_utf8 k s ≡ true
    → unescape_loop 0 false (escape_loop k s) ≡ s
unfolding escape_loop
round zero [] b f v = unescape_loop-nil
round (suc k) [] b f v = elim f [ ]
round (suc k) (c ∷ s) (hc, b) (fc, f) v =
    read-plain c _ (continuing-is_plain c hc fc)
    ∙ ap (λ r. c ∷ r) (round k s b f (sym (every_step-skip k c s) ∙ v))
round zero (c ∷ s) (hc, b) f v = elim (Option-cases (is_utf8 c s)) [
  | inl none_here ↦ ground (arith, every_step-none is_utf8 c s none_here)
  | inr (k, hk) ↦
      let (start, count, rest) = is_utf8-cases c k s hk in
      escape_byte-read c _ start hc
      ∙ ap (λ j. c ∷ unescape_loop 0 false (escape_loop j s)) (escape_byte-count c hc ∙ count)
      ∙ ap (λ r. c ∷ r) (round k s b rest (sym (every_step-some is_utf8 c s hk) ∙ v))
]

-- What `escape` makes of valid UTF-8, `unescape` turns back into it.
pub unescape-escape : (s : Bytes) → AreBytes s → is_unescaped s ≡ true → unescape (escape s) ≡ s
unfolding unescape escape is_unescaped
unescape-escape s b v = round 0 s b tt v
