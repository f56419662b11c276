-- ===== src/Hub.antt =====
-- bridge/src/server.ts: parts of the hub that decide, between the phone's frames and the sources.
-- `Streaming` follows the edges of a source's work, `Ops` is the register of operations, `Ask` the
-- questions of a desktop source, `Commands` the gate for source commands.
pub mod Streaming
pub mod Edges
pub mod Messages
pub mod Commands
pub mod Gate
pub mod Ops
pub mod Ask
mod Tests
