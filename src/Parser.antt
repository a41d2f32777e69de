-- ===== src/Parser.antt =====
-- The parser, src/parser.
pub mod Dnf
pub mod Escaping
pub mod Lexer
pub mod Path
