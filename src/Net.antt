-- ===== src/Net.antt =====
-- The efnfw/net library: connections and the event loop.
pub mod Connection
pub mod EventLoop
pub mod Client
pub mod Timer
