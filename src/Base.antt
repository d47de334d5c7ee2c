-- ===== src/Base.antt =====
-- The efnfw/base library: byte codecs and the buffer chain.
pub mod Base64
pub mod Hex
pub mod LoopBuf
pub mod Loader
