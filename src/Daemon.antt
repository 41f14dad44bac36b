-- ===== src/Daemon.antt =====
-- crates/daemon: the state that the IPC requests act on.
pub mod Lifecycle
pub mod Main
pub mod Requests
pub mod Socket
pub mod Startup
pub mod Sessions
pub mod Heartbeat
