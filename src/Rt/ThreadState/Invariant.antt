-- ===== src/Rt/ThreadState/Invariant.antt =====
-- Which states the threads may be in under each global state, how the votes count them, and which
-- epochs they send in.
mod Defs
mod Ballot
mod Answers
mod Passing
mod Rounds
unfoldable pub use Defs.{allowed, voted, epoch_of, has_saved}
pub use Defs.*
pub use Ballot.*
pub use Answers.*
pub use Rounds.*
