-- ===== src/Parser/Escaping/Blank.antt =====
-- `crlf2lf`, `trimblanklines`, `escapedstring` and `unescapedstring` of src/parser/escaping.cc.
use verona.Prelude.{
  ℕ, zero, suc, Bool, ◌&&◌, ◌||◌, Option, none, some, [], ◌∷◌, ◌++◌, ◌==◌, if◌then◌else◌, length,
  take, drop,
}
use verona.Parser.Escaping.Bytes.{Bytes, at}
use verona.Parser.Escaping.Unescape.{unescape}

abbrev pub one_later : Option ℕ → Option ℕ
one_later none = none
one_later (some k) = some (suc k)

-- `find("\r\n")`.
unfoldable pub find_crlf : Bytes → Option ℕ
find_crlf [] = none
find_crlf (c ∷ []) = none
find_crlf (c ∷ d ∷ s) = if c == 0x0D && d == 0x0A then some 0 else one_later (find_crlf (d ∷ s))

-- The loop of `crlf2lf`, each round of which takes one of the fuel.
unfoldable pub crlf2lf_loop : ℕ → Bytes → Bytes
unfolding find_crlf
crlf2lf_loop zero s = []
crlf2lf_loop (suc fuel) s = elim (find_crlf s) [
  | none ↦ s
  | some pos ↦ take pos s ++ 0x0A ∷ crlf2lf_loop fuel (drop (suc (suc pos)) s)
]

unfoldable pub crlf2lf : Bytes → Bytes
unfolding crlf2lf_loop
crlf2lf src = crlf2lf_loop (suc (length src)) src

-- The set " \f\r\t\v".
unfoldable pub is_blank : ℕ → Bool
is_blank c = c == 0x20 || c == 0x0C || c == 0x0D || c == 0x09 || c == 0x0B

unfoldable pub find_first_not_of : Bytes → Option ℕ
unfolding is_blank
find_first_not_of [] = none
find_first_not_of (c ∷ s) = if is_blank c then one_later (find_first_not_of s) else some 0

unfoldable pub find_last_not_of : Bytes → Option ℕ
unfolding is_blank
find_last_not_of [] = none
find_last_not_of (c ∷ s) = elim (find_last_not_of s) [
  | none ↦ if is_blank c then none else some 0
  | some k ↦ some (suc k)
]

unfoldable pub trim_leading : Bytes → Bytes
unfolding find_first_not_of
trim_leading s = elim (find_first_not_of s) [
  | none ↦ s
  | some pos ↦ if at s pos == 0x0A then drop (suc pos) s else s
]

unfoldable pub trim_trailing : Bytes → Bytes
unfolding find_last_not_of
trim_trailing s = elim (find_last_not_of s) [
  | none ↦ s
  | some pos ↦ if at s pos == 0x0A then take pos s else s
]

unfoldable pub trimblanklines : Bytes → Bytes
unfolding trim_leading trim_trailing
trimblanklines src = trim_trailing (trim_leading src)

unfoldable pub escapedstring : Bytes → Bytes
unfolding unescape trimblanklines crlf2lf
escapedstring s = unescape (trimblanklines (crlf2lf s))

unfoldable pub unescapedstring : Bytes → Bytes
unfolding trimblanklines crlf2lf
unescapedstring s = trimblanklines (crlf2lf s)
