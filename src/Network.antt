-- ===== src/Network.antt =====
-- crates/network: the handshake of a connection, and the client's supervisor.
pub mod Connection
pub mod Handshake
pub mod PeerLoop
pub mod Supervisor
pub mod Tls
