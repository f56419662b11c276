-- ===== src/Transfer.antt =====
-- bridge/src/p2p_transfer_v2.ts: long messages in pages. `Encode` cuts a message into frames,
-- `Retained` keeps them for a resend, `Assembler` puts them together again; the other children prove.
pub mod Encode
pub mod Retained
pub mod Assembler
pub mod Begin
pub mod Pages
pub mod Handlers
pub mod Budget
pub mod Resend
pub mod Caps
pub mod Within
pub mod Stored
pub mod Measured
pub mod Delivered
pub mod Stream
pub mod Paging
pub mod Ends
pub mod Delivery
mod Tests
