-- ===== src/Parser/Path.antt =====
-- Paths as strings, src/parser/path.cc.
pub mod Defs
pub mod Split
mod Tests
