-- ===== src/Parser/Escaping.antt =====
-- String escapes, src/parser/escaping.cc. A string is the list of its bytes. A loop over an index
-- `i` is a recursion on the bytes from `i` on; where the source adds to `i` beyond the loop's own
-- step, the recursion is given the count of bytes to pass over.
pub mod Bytes
pub mod Check
pub mod Escape
pub mod Unescape
pub mod RoundTrip
pub mod Lenient
pub mod Blank
pub mod Lines
pub mod Source
mod Tests
