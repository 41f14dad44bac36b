-- ===== src/Ipc.antt =====
-- crates/ipc: the lines that the daemon and its clients exchange.
pub mod Transport
