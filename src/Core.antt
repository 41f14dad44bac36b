-- ===== src/Core.antt =====
-- crates/core: the vocabulary that every part of the program shares.
pub mod Screen
pub mod Event
pub mod Modifiers
pub mod Error
pub mod Files
pub mod Config
