-- ===== src/Parser/Escaping/Check.antt =====
-- `is_escape`, `is_utf8`, `is_escaped` and `is_unescaped` of src/parser/escaping.cc.
use verona.Prelude.{
  ℕ, zero, suc, Bool, true, false, not, ◌&&◌, ◌||◌, Option, none, some, [], ◌∷◌, ltb, ◌==◌,
  if◌then◌else◌, length, drop,
}
use verona.Parser.Escaping.Bytes.{
  Bytes, at, is_binary, is_hex, is_utf8cont, is_one, is_two, is_three, is_four,
}

-- At the bytes from the first digit on.
unfoldable pub is_xescape : Bytes → Bool
unfolding is_hex
is_xescape s = ltb 1 (length s) && is_hex (at s 0) && is_hex (at s 1)

unfoldable pub is_uescape : Bytes → Bool
unfolding is_hex
is_uescape s =
    ltb 3 (length s) && is_hex (at s 0) && is_hex (at s 1) && is_hex (at s 2) && is_hex (at s 3)

unfoldable pub is_Uescape : Bytes → Bool
unfolding is_hex is_binary
is_Uescape s =
    if not (ltb 5 (length s))
    then false
    else if at s 0 == b'1' && not (at s 1 == b'0')
    then false
    else (is_binary (at s 0)
        && is_hex (at s 1)
        && is_hex (at s 2)
        && is_hex (at s 3)
        && is_hex (at s 4)
        && is_hex (at s 5))

-- The letters of the escapes of one character: ' " \ a b e f n r t v 0.
unfoldable pub is_letter : ℕ → Bool
is_letter c =
    c == 0x27
    || c == 0x22
    || c == 0x5C
    || c == b'a'
    || c == b'b'
    || c == b'e'
    || c == b'f'
    || c == b'n'
    || c == b'r'
    || c == b't'
    || c == b'v'
    || c == b'0'

-- What a test adds to `i`, or `none` where it fails. `c` is `s[i]`, `s` what follows.
unfoldable pub is_escape : ℕ → Bytes → Option ℕ
unfolding is_letter is_xescape is_uescape is_Uescape
is_escape c s =
    if not (c == 0x5C)
    then none
    else if not (ltb 0 (length s))
    then none
    else if is_letter (at s 0)
    then some 1
    else if at s 0 == b'x'
    then (if is_xescape (drop 1 s) then some 3 else none)
    else if at s 0 == b'u'
    then (if is_uescape (drop 1 s) then some 5 else none)
    else if at s 0 == b'U'
    then (if is_Uescape (drop 1 s) then some 7 else none)
    else none

unfoldable pub is_utf8 : ℕ → Bytes → Option ℕ
unfolding is_utf8cont is_one is_two is_three is_four
is_utf8 c s =
    if is_one c
    then some 0
    else if is_two c
    then (if ltb 0 (length s) && is_utf8cont (at s 0) then some 1 else none)
    else if is_three c
    then (if ltb 1 (length s) && is_utf8cont (at s 0) && is_utf8cont (at s 1) then some 2 else none)
    else if is_four c
    then (if ltb 2 (length s)
          && is_utf8cont (at s 0)
          && is_utf8cont (at s 1)
          && is_utf8cont (at s 2)
        then some 3
        else none)
    else none

-- A loop that passes over the bytes that a test accepts.
unfoldable pub every_step : (ℕ → Bytes → Option ℕ) → ℕ → Bytes → Bool
every_step test k [] = true
every_step test (suc k) (c ∷ s) = every_step test k s
every_step test zero (c ∷ s) = elim (test c s) [ none ↦ false | some k ↦ every_step test k s ]

abbrev pub first_some : Option ℕ → Option ℕ → Option ℕ
first_some none b = b
first_some (some a) b = some a

unfoldable pub is_escaped : Bytes → Bool
unfolding every_step is_escape is_utf8
is_escaped s = every_step (λ c rest. first_some (is_escape c rest) (is_utf8 c rest)) 0 s

unfoldable pub is_unescaped : Bytes → Bool
unfolding every_step is_utf8
is_unescaped s = every_step is_utf8 0 s
