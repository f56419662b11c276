-- ===== src/Sessions.antt =====
-- bridge/src/session_entries.ts: pages of entries that are read from a session file line by line.
-- `Pages` is the reader, `Window` what a page holds
-- at most, `Read`, `Cursor` and `Backward` what is read of a file, `Walk` a client that asks for more.
pub mod Pages
pub mod Window
pub mod Read
pub mod Cursor
pub mod Backward
pub mod Walk
pub mod Walked
mod Tests
