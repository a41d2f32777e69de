-- ===== src/Parser/Path/Defs.antt =====
-- The functions of src/parser/path.cc that do not call the operating system, as on Linux. A string is the
-- list of its bytes.
use verona.Prelude.{
  ℕ, suc, ◌-◌, Bool, true, false, not, Option, none, some, [], ◌∷◌, ◌++◌, leb, ltb, ◌==◌,
  if◌then◌else◌, length, take, drop,
}
use verona.Parser.Escaping.Bytes.{Bytes, at}

abbrev pub delim : ℕ
delim = 0x2F

-- `rfind`, for one byte.
unfoldable pub rfind : ℕ → Bytes → Option ℕ
rfind c [] = none
rfind c (x ∷ s) = elim (rfind c s) [
  | some k ↦ some (suc k)
  | none ↦ if x == c then some 0 else none
]

unfoldable pub is_directory : Bytes → Bool
is_directory path = if ltb (length path) 1 then false else (at path (length path - 1) == delim)

unfoldable pub directory : Bytes → Bytes
unfolding is_directory rfind
directory path =
    if is_directory path
    then path
    else elim (rfind delim path) [ none ↦ [] | some pos ↦ take (suc pos) path ]

unfoldable pub filename : Bytes → Bytes
unfolding is_directory rfind
filename path =
    if is_directory path
    then []
    else elim (rfind delim path) [ none ↦ path | some pos ↦ drop (suc pos) path ]

unfoldable pub is_relative : Bytes → Bool
is_relative [] = true
is_relative (c ∷ path) = not (c == delim)

unfoldable pub join : Bytes → Bytes → Bytes
unfolding is_relative directory
join path1 path2 = if not (is_relative path2) then path2 else directory path1 ++ path2

unfoldable pub to_directory : Bytes → Bytes
unfolding is_directory
to_directory path = if is_directory path then path else path ++ delim ∷ []

abbrev pub not_behind : ℕ → Option ℕ → Bool
not_behind pos none = false
not_behind pos (some d) = leb pos d

unfoldable pub extension : Bytes → Bytes
unfolding rfind
extension path = elim (rfind b'.' path) [
  | none ↦ []
  | some pos ↦ if not_behind pos (rfind delim path) then [] else drop (suc pos) path
]

unfoldable pub is_hidden : Bytes → Bool
is_hidden [] = true
is_hidden (c ∷ path) = c == b'.'
