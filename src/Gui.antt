-- ===== src/Gui.antt =====
-- crates/gui: the supervisor of the daemon's process, and what the window does with its answers.
pub mod Supervisor
pub mod Roles
pub mod Actions
pub mod Window
