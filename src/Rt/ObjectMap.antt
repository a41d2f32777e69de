-- ===== src/Rt/ObjectMap.antt =====
-- The Robin Hood map of src/rt/ds/hashmap.h.
pub mod Defs
pub mod Walk
pub mod Keeps
pub mod Insert
pub mod Resize
pub mod Index
pub mod Iterate
pub mod Home
pub mod Rehash
pub mod Retry
pub mod Total
mod Tests
