-- ===== src/Clipboard.antt =====
-- crates/clipboard/src/lib.rs and crates/daemon/src/clipboard_mgr.rs: the lazy clipboard.
pub mod Backend
pub mod Arboard
pub mod Manager
