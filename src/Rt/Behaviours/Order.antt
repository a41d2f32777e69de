-- ===== src/Rt/Behaviours/Order.antt =====
-- Why behaviours do not wait for each other in a circle: locks and queues follow one order.
pub mod Defs
pub mod Calls
pub mod Stamps
pub mod Sends
pub mod Turns
pub mod Bodies
pub mod Locks
