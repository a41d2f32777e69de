-- ===== src/Parser/Dnf.antt =====
-- Disjunctive normal form of types, src/parser/dnf.cc.
pub mod Types
pub mod Combine
pub mod Meaning
pub mod Elements
pub mod Conjunction
pub mod Total
pub mod Disjunction
pub mod Defects
mod Tests
