-- ===== src/Notify.antt =====
-- bridge/src/notification_event.ts, notification_event_store.ts, notification_detector.ts and
-- notification_receipts.ts: what the phone is notified of. `Store` and `Log` are the event store,
-- `Detector` makes events of a task's edges, `Receipts` is the register of what was shown.
pub mod Event
pub mod Store
pub mod Log
pub mod Detector
pub mod Receipts
pub mod Acks
pub mod Restart
pub mod Durable
pub mod Reuse
pub mod Once
pub mod Shown
mod Tests
