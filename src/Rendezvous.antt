-- ===== src/Rendezvous.antt =====
-- rendezvous/src/server.ts and key_policy.ts: the service where a desktop and its phones find each
-- other. `Policy` is the policy of names and keys, `Rooms` the service, `Invariant` what holds of its
-- rooms, `Isolation` to whom it passes a signal.
pub mod Policy
pub mod State
pub mod Hello
pub mod Rooms
pub mod Invariant
pub mod Steps
pub mod Runs
pub mod Isolation
mod Tests
