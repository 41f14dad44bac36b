-- ===== src/Transfer.antt =====
-- crates/filetransfer/src/lib.rs and crates/daemon/src/filetransfer_mgr.rs: files in chunks.
pub mod Paths
pub mod Receiver
pub mod Sender
pub mod Manager
