-- ===== src/Routing.antt =====
-- crates/daemon/src/edge.rs and session.rs: where input goes, and what the daemon does about it.
pub mod Edge
pub mod Session
pub mod Inbound
pub mod Cable
pub mod Client
