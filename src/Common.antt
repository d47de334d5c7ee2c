-- ===== src/Common.antt =====
-- What the servers share: common/src.
pub mod SessCache
pub mod Watcher
