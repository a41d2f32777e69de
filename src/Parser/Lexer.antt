-- ===== src/Parser/Lexer.antt =====
-- The lexer, src/parser/lexer.cc.
pub mod Tokens
pub mod Classes
pub mod Symbols
pub mod Numbers
pub mod Quotes
pub mod Lex
pub mod Cut
pub mod CutLiterals
pub mod Total
pub mod Runs
mod Tests
