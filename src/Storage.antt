-- ===== src/Storage.antt =====
-- src/storage.rs: the local store of a device, over the tables that its schema declares.
pub mod Schema
pub mod Entries
pub mod Peers
pub mod Prune
