-- ===== src/Parser/Escaping/Lenient.antt =====
-- `is_escaped` of src/parser/escaping.cc beside `is_unescaped`.
use verona.Prelude.{
  ℕ, zero, suc, ◌<◌, ◌≡◌, refl, sym, ◌∙◌, inl, inr, Bool, true, false, ◌&&◌, Option, none, some, [],
  ◌∷◌, arith, if◌then◌else◌, Option-cases, some-injective, subst,
}
use verona.Parser.Escaping.Bytes.{Bytes, is_binary, is_hex, is_one_lem}
use verona.Parser.Escaping.Check.{
  is_letter, is_xescape, is_uescape, is_Uescape, is_escape, is_utf8, first_some, every_step,
  is_escaped, is_unescaped,
}
use verona.Parser.Escaping.RoundTrip.{every_step-some, every_step-none}

-- The first `k` bytes are there and are below 0x80.
abbrev Low : ℕ → Bytes → Type 0
Low zero s = Unit
Low (suc k) [] = ⊥
Low (suc k) (c ∷ s) = (c < 0x80) × Low k s

is_utf8-low : (c : ℕ) (s : Bytes) → c < 0x80 → is_utf8 c s ≡ some 0
unfolding is_utf8
is_utf8-low c s h = ground (arith, is_one_lem c (omega arith))

is_hex-low : (c : ℕ) → is_hex c ≡ true → c < 0x80
unfolding is_hex
is_hex-low c h = ground arith

is_binary-low : (c : ℕ) → is_binary c ≡ true → c < 0x80
unfolding is_binary
is_binary-low c h = ground arith

is_letter-low : (c : ℕ) → is_letter c ≡ true → c < 0x80
unfolding is_letter
is_letter-low c h = ground arith

both : {a b : Bool} → (a && b) ≡ true → (a ≡ true) × (b ≡ true)
both {a} {b} h = ground arith

past : (a : Bool) {b : Bool} → (if a then false else b) ≡ true → b ≡ true
past a {b} h = ground arith

is_xescape-Low : (s : Bytes) → is_xescape s ≡ true → Low 2 s
unfolding is_xescape
is_xescape-Low [] h = ground arith
is_xescape-Low (a ∷ []) h = ground arith
is_xescape-Low (a ∷ b ∷ s) h = ground (arith, is_hex-low a, is_hex-low b)

is_uescape-Low : (s : Bytes) → is_uescape s ≡ true → Low 4 s
unfolding is_uescape
is_uescape-Low [] h = ground arith
is_uescape-Low (a ∷ []) h = ground arith
is_uescape-Low (a ∷ b ∷ []) h = ground arith
is_uescape-Low (a ∷ b ∷ c ∷ []) h = ground arith
is_uescape-Low (a ∷ b ∷ c ∷ d ∷ s) h =
    let (h3, hd) = both h in
    let (h2, hc) = both h3 in
    let (h1, hb) = both h2 in
    let (_, ha) = both h1 in
    (is_hex-low a ha, (is_hex-low b hb, (is_hex-low c hc, (is_hex-low d hd, tt))))

is_Uescape-Low : (s : Bytes) → is_Uescape s ≡ true → Low 6 s
unfolding is_Uescape
is_Uescape-Low [] h = ground arith
is_Uescape-Low (a ∷ []) h = ground arith
is_Uescape-Low (a ∷ b ∷ []) h = ground arith
is_Uescape-Low (a ∷ b ∷ c ∷ []) h = ground arith
is_Uescape-Low (a ∷ b ∷ c ∷ d ∷ []) h = ground arith
is_Uescape-Low (a ∷ b ∷ c ∷ d ∷ e ∷ []) h = ground arith
is_Uescape-Low (a ∷ b ∷ c ∷ d ∷ e ∷ f ∷ s) h =
    let (h5, hf) = both (past _ (past _ h)) in
    let (h4, he) = both h5 in
    let (h3, hd) = both h4 in
    let (h2, hc) = both h3 in
    let (ha, hb) = both h2 in
    (
      is_binary-low a ha,
      (
        is_hex-low b hb,
        (is_hex-low c hc, (is_hex-low d hd, (is_hex-low e he, (is_hex-low f hf, tt)))),
      ),
    )

-- An escape consists of bytes below 0x80.
Low-subst : (n k : ℕ) (s : Bytes) → Low n s → some n ≡ some k → Low k s
Low-subst n k s low e = subst (λ j. Low j s) (some-injective _ _ e) low

digits-Low :
    (b : Bool) (n k a : ℕ) (s : Bytes)
    → (b ≡ true → Low n s)
    → a < 0x80
    → (if b then some (suc n) else none) ≡ some k
    → Low k (a ∷ s)
digits-Low true n k a s low ha h = Low-subst (suc n) k (a ∷ s) (ha, low refl) h
digits-Low false n k a s low ha h = ground arith

is_escape-Low : (c k : ℕ) (s : Bytes) → is_escape c s ≡ some k → (c < 0x80) × Low k s
unfolding is_escape
is_escape-Low c k [] h = ground arith
is_escape-Low c k (a ∷ s) h = ground (
  arith,
  Low-subst 1 k (a ∷ s),
  is_letter-low a,
  digits-Low (is_xescape s) 2 k a s (is_xescape-Low s),
  digits-Low (is_uescape s) 4 k a s (is_uescape-Low s),
  digits-Low (is_Uescape s) 6 k a s (is_Uescape-Low s),
)

-- Such bytes pass the loop of `is_unescaped` one by one.
every_step-Low : (k : ℕ) (s : Bytes) → Low k s → every_step is_utf8 0 s ≡ every_step is_utf8 k s
unfolding every_step
every_step-Low zero s h = refl
every_step-Low (suc k) [] h = elim h [ ]
every_step-Low (suc k) (c ∷ s) (hc, h) =
    every_step-some is_utf8 c s (is_utf8-low c s hc) ∙ every_step-Low k s h

abbrev step : ℕ → Bytes → Option ℕ
step c s = first_some (is_escape c s) (is_utf8 c s)

steps : (k : ℕ) (s : Bytes) → every_step step k s ≡ every_step is_utf8 k s
unfolding every_step
steps k [] = refl
steps (suc k) (c ∷ s) = steps k s
steps zero (c ∷ s) = elim (Option-cases (is_escape c s)) [
  | inl no_escape ↦ elim (Option-cases (is_utf8 c s)) [
    | inl none_here ↦
        every_step-none step c s (rw (no_escape, none_here, step) refl)
        ∙ sym (every_step-none is_utf8 c s none_here)
    | inr (k, hk) ↦
        every_step-some step c s (rw (no_escape, step) hk)
        ∙ steps k s
        ∙ sym (every_step-some is_utf8 c s hk)
  ]
  | inr (k, hk) ↦
      let (hc, low) = is_escape-Low c k s hk in
      every_step-some step c s (rw (hk, step) refl)
      ∙ steps k s
      ∙ sym (every_step-Low k s low)
      ∙ sym (every_step-some is_utf8 c s (is_utf8-low c s hc))
]

-- `is_escaped` accepts the strings that `is_unescaped` accepts, and no others: a backslash that starts no
-- escape is taken for a character of its own.
pub is_escaped-is_unescaped : (s : Bytes) → is_escaped s ≡ is_unescaped s
unfolding is_escaped is_unescaped
is_escaped-is_unescaped s = steps 0 s
