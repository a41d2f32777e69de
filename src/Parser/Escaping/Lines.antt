-- ===== src/Parser/Escaping/Lines.antt =====
-- What `crlf2lf` and `trimblanklines` of src/parser/escaping.cc do to a string.
use verona.Prelude.{
  ℕ, zero, suc, ◌<◌, ◌≡◌, refl, sym, ap, ◌∙◌, inl, inr, true, false, ◌&&◌, none, some, [], ◌∷◌,
  ◌++◌, arith, ◌==◌, if◌then◌else◌, All, Bool-cases, Option-cases, length, take, drop,
}
use verona.Parser.Escaping.Bytes.{Bytes, at}
use verona.Parser.Escaping.Blank.{
  one_later, find_crlf, crlf2lf_loop, crlf2lf, is_blank, find_first_not_of, find_last_not_of,
  trim_leading, trim_trailing, trimblanklines,
}

-- Each "\r\n" replaced by "\n", in one pass.
abbrev pub pairs_replaced : Bytes → Bytes
pairs_replaced [] = []
pairs_replaced (c ∷ []) = c ∷ []
pairs_replaced (c ∷ d ∷ s) =
    let rest = pairs_replaced s in
    let later = pairs_replaced (d ∷ s) in if c == 0x0D && d == 0x0A then 0x0A ∷ rest else c ∷ later

find_crlf-pair :
    (c d : ℕ) (s : Bytes) → (c == 0x0D && d == 0x0A) ≡ true → find_crlf (c ∷ d ∷ s) ≡ some 0
unfolding find_crlf
find_crlf-pair c d s h = rw h

find_crlf-other :
    (c d : ℕ) (s : Bytes)
    → (c == 0x0D && d == 0x0A) ≡ false
    → find_crlf (c ∷ d ∷ s) ≡ one_later (find_crlf (d ∷ s))
unfolding find_crlf
find_crlf-other c d s h = rw h

loop-none : (fuel : ℕ) (s : Bytes) → find_crlf s ≡ none → crlf2lf_loop (suc fuel) s ≡ s
unfolding crlf2lf_loop
loop-none fuel s h = rw (h, crlf2lf_loop)

loop-some :
    (fuel : ℕ) (s : Bytes) {pos : ℕ}
    → find_crlf s ≡ some pos
    → crlf2lf_loop (suc fuel) s ≡ take pos s ++ 0x0A ∷ crlf2lf_loop fuel (drop (suc (suc pos)) s)
unfolding crlf2lf_loop
loop-some fuel s h = rw (h, crlf2lf_loop)

loop-pass :
    (fuel c d : ℕ) (s : Bytes)
    → (c == 0x0D && d == 0x0A) ≡ false
    → crlf2lf_loop (suc fuel) (c ∷ d ∷ s) ≡ c ∷ crlf2lf_loop (suc fuel) (d ∷ s)
loop-pass fuel c d s h = elim (Option-cases (find_crlf (d ∷ s))) [
  | inl none_later ↦
      loop-none fuel _ (find_crlf-other c d s h ∙ ap one_later none_later)
      ∙ ap (λ r. c ∷ r) (sym (loop-none fuel _ none_later))
  | inr (pos, later) ↦
      loop-some fuel _ (find_crlf-other c d s h ∙ ap one_later later)
      ∙ ap (λ r. c ∷ r) (sym (loop-some fuel _ later))
]

loop-pairs_replaced :
    (fuel : ℕ) (s : Bytes) → length s < fuel → crlf2lf_loop fuel s ≡ pairs_replaced s
unfolding find_crlf
loop-pairs_replaced zero s lt = absurd (omega arith)
loop-pairs_replaced (suc fuel) [] lt = loop-none fuel [] refl
loop-pairs_replaced (suc fuel) (c ∷ []) lt = loop-none fuel (c ∷ []) refl
loop-pairs_replaced (suc fuel) (c ∷ d ∷ s) lt = elim (Bool-cases (c == 0x0D && d == 0x0A)) [
  | inl pair ↦
      loop-some fuel _ (find_crlf-pair c d s pair)
      ∙ ap (λ r. 0x0A ∷ r) (loop-pairs_replaced fuel s (omega arith))
      ∙ rw pair refl
  | inr other ↦
      loop-pass fuel c d s other
      ∙ ap (λ r. c ∷ r) (loop-pairs_replaced (suc fuel) (d ∷ s) (omega arith))
      ∙ rw other refl
]

-- `crlf2lf` replaces each "\r\n" by "\n", reading from the left.
pub crlf2lf-pairs_replaced : (s : Bytes) → crlf2lf s ≡ pairs_replaced s
unfolding crlf2lf
crlf2lf-pairs_replaced s = loop-pairs_replaced (suc (length s)) s (omega arith)

-- The first byte that is not blank.
first-blanks :
    (w t : Bytes) (c : ℕ)
    → All (λ b. is_blank b ≡ true) w
    → is_blank c ≡ false
    → find_first_not_of (w ++ c ∷ t) ≡ some (length w)
unfolding find_first_not_of
first-blanks [] t c h ch = rw ch
first-blanks (b ∷ w) t c (hb, h) ch = rw (hb, first-blanks w t c h ch)

at-length : (w t : Bytes) (c : ℕ) → at (w ++ c ∷ t) (length w) ≡ c
at-length [] t c = refl
at-length (b ∷ w) t c = at-length w t c

drop-length : (w t : Bytes) (c : ℕ) → drop (suc (length w)) (w ++ c ∷ t) ≡ t
drop-length [] t c = refl
drop-length (b ∷ w) t c = drop-length w t c

take-length : (w t : Bytes) (c : ℕ) → take (length w) (w ++ c ∷ t) ≡ w
take-length [] t c = refl
take-length (b ∷ w) t c = ap (λ r. b ∷ r) (take-length w t c)

last-blanks-none : (w : Bytes) → All (λ b. is_blank b ≡ true) w → find_last_not_of w ≡ none
unfolding find_last_not_of
last-blanks-none [] h = refl
last-blanks-none (b ∷ w) (hb, h) = rw (last-blanks-none w h, hb, find_last_not_of)

last-blanks :
    (t w : Bytes) (c : ℕ)
    → All (λ b. is_blank b ≡ true) w
    → is_blank c ≡ false
    → find_last_not_of (t ++ c ∷ w) ≡ some (length t)
unfolding find_last_not_of
last-blanks [] w c h ch = rw (last-blanks-none w h, ch, find_last_not_of)
last-blanks (b ∷ t) w c h ch = rw (last-blanks t w c h ch, find_last_not_of)

trim_leading-blanks :
    (w t : Bytes) → All (λ b. is_blank b ≡ true) w → trim_leading (w ++ 0x0A ∷ t) ≡ t
unfolding trim_leading is_blank
trim_leading-blanks w t h =
    rw (first-blanks w t 0x0A h refl, trim_leading) (rw (at-length w t 0x0A) (drop-length w t 0x0A))

trim_trailing-blanks :
    (t v : Bytes) → All (λ b. is_blank b ≡ true) v → trim_trailing (t ++ 0x0A ∷ v) ≡ t
unfolding trim_trailing is_blank
trim_trailing-blanks t v h =
    rw (last-blanks t v 0x0A h refl, trim_trailing) (rw (at-length t v 0x0A) (take-length t v 0x0A))

-- `trimblanklines` takes off one blank line before the text and one behind it, whatever the text is.
pub trimblanklines-blanks :
    (w t v : Bytes)
    → All (λ b. is_blank b ≡ true) w
    → All (λ b. is_blank b ≡ true) v
    → trimblanklines (w ++ 0x0A ∷ (t ++ 0x0A ∷ v)) ≡ t
unfolding trimblanklines
trimblanklines-blanks w t v hw hv =
    ap trim_trailing (trim_leading-blanks w _ hw) ∙ trim_trailing-blanks t v hv
