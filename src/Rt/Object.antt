-- ===== src/Rt/Object.antt =====
-- Object headers, src/rt/object/object.h.
pub mod Header
pub mod Cown
pub mod Counts
mod Tests
pub mod Root
pub mod Shared
