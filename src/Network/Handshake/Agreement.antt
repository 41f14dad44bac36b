-- ===== src/Network/Handshake/Agreement.antt =====
-- The two sides of the handshake of crates/network.
use my_deskflow.Prelude.{◌≡◌, refl, [], ◌∷◌}
use my_deskflow.Core.Error.{ok}
use my_deskflow.Protocol.Header.{protocol_version}
use my_deskflow.Protocol.Message.{Message, welcome, full}
use my_deskflow.Network.Handshake.{
  LocalPeer, welcome_for, accept_hello, client_hello, accept_welcome,
}

-- A client's hello is answered with one message, and by it both sides go on, each with the other.
pub handshake_agrees :
    (server client : LocalPeer)
    → (reply : Message) × (accept_hello server (client_hello client) ≡ (
      reply ∷ [],
      ok (record { peer_id = client.local_peer_id; peer_name = client.local_peer_name }),
    ))
      × (accept_welcome reply
          ≡ ok (record { peer_id = server.local_peer_id; peer_name = server.local_peer_name }))
unfolding accept_hello client_hello accept_welcome
handshake_agrees server client = (
  welcome (
      welcome_for server (record {
        peer_id = client.local_peer_id;
        peer_name = client.local_peer_name;
        protocol_version = protocol_version;
        capabilities = full;
      })),
  refl,
  refl,
)
