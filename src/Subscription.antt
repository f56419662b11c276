-- ===== src/Subscription.antt =====
-- bridge/src/notification_protocol.ts: the phone's subscriptions to notification events. `State` has
-- the subscriptions and the frames, `Paging` the pages to a fixed tip, `Live` what comes in meanwhile.
pub mod State
pub mod Requests
pub mod Parsed
pub mod Written
pub mod Paging
pub mod Live
pub mod Skipped
pub mod Pages
pub mod Covered
pub mod CatchUp
pub mod Waiting
pub mod Full
pub mod Arrivals
pub mod Invariant
pub mod Calls
pub mod Acknowledged
mod Tests
