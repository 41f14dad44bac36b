-- ===== src/Tests.antt =====
-- Runs of the model on concrete inputs, and the theorems at inputs that meet their hypotheses.
mod Wire
mod Transfer
mod Clipboard
mod Platform
mod Network
mod Daemon
mod Routes
mod Disk
mod Windows
mod Surroundings
mod Supervisor
mod VirtualKeys
mod Cable
mod Connections
mod Ipc
mod Lifetimes
mod Offers
mod Window
