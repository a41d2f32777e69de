-- ===== src/Rt/Stack.antt =====
-- The stack of blocks, src/rt/ds/stack.h.
pub mod Thin
pub mod Backup
pub mod Holds
pub mod Refine
pub mod Visits
pub mod GivesBack
pub mod Keeps
mod Tests
