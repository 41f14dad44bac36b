-- ===== src/Platform.antt =====
-- crates/platform: the backends that inject and capture.
pub mod LinuxInject
pub mod WindowsKeymap
pub mod WindowsCapture
pub mod WindowsInject
pub mod Screens
pub mod Idle
