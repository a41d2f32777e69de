-- ===== src/Parser/Path/Tests.antt =====
-- Runs of the functions of src/parser/path.cc, and concrete uses of their properties.
use verona.Prelude.{◌≡◌, refl, true, [], ◌∷◌}
use verona.Parser.Escaping.Bytes.{Bytes}
use verona.Parser.Path.Defs.{delim, filename, join, extension, is_hidden}

-- "/a/b.c".
abbrev file : Bytes
file = delim ∷ b'a' ∷ delim ∷ b'b' ∷ b'.' ∷ b'c' ∷ []

filename_of_file : filename file ≡ b'b' ∷ b'.' ∷ b'c' ∷ []
unfolding filename
filename_of_file = refl

extension_of_file : extension file ≡ b'c' ∷ []
unfolding extension
extension_of_file = refl

hidden_file : is_hidden (b'.' ∷ b'a' ∷ []) ≡ true
unfolding is_hidden
hidden_file = refl

joined : join file (b'd' ∷ []) ≡ delim ∷ b'a' ∷ delim ∷ b'd' ∷ []
unfolding join
joined = refl
