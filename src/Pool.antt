-- ===== src/Pool.antt =====
-- bridge/src/pi_pool.ts: the pool of pi processes, one for each open session. The clock, the counts
-- that the callbacks give and the outcome of a spawn are arguments; callbacks made are returned.
pub mod State
pub mod Closing
pub mod Opening
pub mod Claims
pub mod Steps
pub mod Moves
pub mod Reach
pub mod Spares
pub mod Limit
mod Tests
