-- ===== src/P2p.antt =====
-- src/p2p.rs: the sync over libp2p.
pub mod Addrs
pub mod Client
pub mod Targets
pub mod Run
pub mod Serve
pub mod Pulled
