-- ===== src/Nav.antt =====
-- extension/src/nav_commands.ts: going back in a session's tree. `Tree` finds the message to go back
-- to, `Run` carries a command out, `Cache` keeps the context of commands.
pub mod Tree
pub mod Run
pub mod Cache
pub mod Target
pub mod Order
mod Tests
