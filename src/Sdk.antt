-- ===== src/Sdk.antt =====
-- The client library: clientsdk.
pub mod RingBuf
pub mod Sock
pub mod Client
