-- ===== src/Connect.antt =====
-- The connection server: connect_server/src.
pub mod ErrNo
pub mod TypeMap
pub mod Client
