-- ===== src/Parser/Escaping/Tests.antt =====
-- Runs of the functions of src/parser/escaping.cc, and concrete uses of their properties.
use verona.Prelude.{arith, ◌≡◌, refl, [], ◌∷◌, true}
use verona.Parser.Escaping.Bytes.{Bytes}
use verona.Parser.Escaping.Check.{is_escaped, is_unescaped}
use verona.Parser.Escaping.Escape.{escape}
use verona.Parser.Escaping.Unescape.{unescape}
use verona.Parser.Escaping.Blank.{crlf2lf, escapedstring}
use verona.Parser.Escaping.RoundTrip.{AreBytes, unescape-escape}
use verona.Parser.Escaping.Lenient.{is_escaped-is_unescaped}
use verona.Parser.Escaping.Lines.{pairs_replaced, crlf2lf-pairs_replaced}
use verona.Parser.Escaping.Source.{escapedstring-escape}

-- A tab, a backslash, DEL, the two bytes of é, and the letter x.
abbrev sample : Bytes
sample = 0x09 ∷ 0x5C ∷ 0x7F ∷ 0xC3 ∷ 0xA9 ∷ b'x' ∷ []

escaped_sample :
    escape sample ≡ 0x5C ∷ b't' ∷ 0x5C ∷ 0x5C ∷ 0x5C ∷ b'x' ∷ b'7' ∷ b'F' ∷ 0xC3 ∷ 0xA9 ∷ b'x' ∷ []
unfolding escape
escaped_sample = refl

-- The escape of U+1F600 is four bytes.
unescaped_emoji :
    unescape (0x5C ∷ b'U' ∷ b'0' ∷ b'1' ∷ b'F' ∷ b'6' ∷ b'0' ∷ b'0' ∷ [])
    ≡ 0xF0 ∷ 0x9F ∷ 0x98 ∷ 0x80 ∷ []
unfolding unescape
unescaped_emoji = refl

-- An escape that does not exist is accepted.
unknown_escape_accepted : is_escaped (0x5C ∷ b'q' ∷ []) ≡ true
unfolding is_escaped
unknown_escape_accepted = refl

-- "\r\r\n" still holds a pair afterwards.
crlf2lf_once : crlf2lf (0x0D ∷ 0x0D ∷ 0x0A ∷ []) ≡ 0x0D ∷ 0x0A ∷ []
unfolding crlf2lf
crlf2lf_once = refl

sample-AreBytes : AreBytes sample
sample-AreBytes =
    (omega arith, (omega arith, (omega arith, (omega arith, (omega arith, (omega arith, tt))))))

sample-is_unescaped : is_unescaped sample ≡ true
unfolding is_unescaped
sample-is_unescaped = refl

unescape-escape_example : unescape (escape sample) ≡ sample
unescape-escape_example = unescape-escape sample sample-AreBytes sample-is_unescaped

escapedstring-escape_example : escapedstring (escape sample) ≡ sample
escapedstring-escape_example = escapedstring-escape sample sample-AreBytes sample-is_unescaped

is_escaped-is_unescaped_example :
    is_escaped (0x5C ∷ b'q' ∷ 0x5C ∷ b'n' ∷ 0xC3 ∷ [])
    ≡ is_unescaped (0x5C ∷ b'q' ∷ 0x5C ∷ b'n' ∷ 0xC3 ∷ [])
is_escaped-is_unescaped_example = is_escaped-is_unescaped (0x5C ∷ b'q' ∷ 0x5C ∷ b'n' ∷ 0xC3 ∷ [])

crlf2lf-pairs_replaced_example :
    crlf2lf (b'a' ∷ 0x0D ∷ 0x0D ∷ 0x0A ∷ b'b' ∷ 0x0D ∷ 0x0A ∷ [])
    ≡ pairs_replaced (b'a' ∷ 0x0D ∷ 0x0D ∷ 0x0A ∷ b'b' ∷ 0x0D ∷ 0x0A ∷ [])
crlf2lf-pairs_replaced_example =
    crlf2lf-pairs_replaced (b'a' ∷ 0x0D ∷ 0x0D ∷ 0x0A ∷ b'b' ∷ 0x0D ∷ 0x0A ∷ [])
