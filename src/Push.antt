-- ===== src/Push.antt =====
-- The push server: push_server/src.
pub mod PackLen
pub mod Server
pub mod Listen
pub mod EndToEnd
pub mod Manager
mod Tests
