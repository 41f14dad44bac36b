-- ===== src/Network/Handshake.antt =====
-- The handshakes of `handle_connection` in crates/network/src/server.rs and `connect_once` in
-- crates/network/src/client.rs, from the messages read to the messages written.
pub mod Agreement
use my_deskflow.Prelude.{ℕ, String, List, [], ◌∷◌, ◌==◌, if◌then◌else◌}
use my_deskflow.Core.Error.{Error, Result, ok, err, protocol, peer_rejected, version_mismatch}
use my_deskflow.Core.Screen.{PeerId}
use my_deskflow.Protocol.Header.{protocol_version}
use my_deskflow.Protocol.Message.{
  Message, hello, welcome, error, Hello, Welcome, Capabilities, full, negotiate,
}
use my_deskflow.Routing.Session.{PeerHandle}

-- What `ServerConfig` and `ClientConfig` say about the own side.
pub record LocalPeer : Type 0 where
  pub local_peer_id : PeerId
  pub local_peer_name : String

abbrev pub welcome_for : LocalPeer → Hello → Welcome
welcome_for cfg h = record {
  peer_id = cfg.local_peer_id;
  peer_name = cfg.local_peer_name;
  accepted_capabilities = negotiate full h.capabilities;
  assigned_screen = 1;
}

-- The server's side: what it writes, and the peer that it goes on with.
unfoldable pub accept_hello : LocalPeer → Message → List Message × Result Error PeerHandle
accept_hello cfg (hello h) =
    if h.protocol_version == protocol_version
    then (
      welcome (welcome_for cfg h) ∷ [],
      ok (record { peer_id = h.peer_id; peer_name = h.peer_name }),
    )
    else (
      error 1 "version mismatch" ∷ [],
      err (version_mismatch protocol_version h.protocol_version),
    )
accept_hello cfg _ = ([], err (protocol "expected Hello"))

unfoldable pub client_hello : LocalPeer → Message
client_hello cfg = hello (record {
  peer_id = cfg.local_peer_id;
  peer_name = cfg.local_peer_name;
  protocol_version = protocol_version;
  capabilities = full;
})

-- The client's side, on what it reads next.
unfoldable pub accept_welcome : Message → Result Error PeerHandle
accept_welcome (welcome w) = ok (record { peer_id = w.peer_id; peer_name = w.peer_name })
accept_welcome (error code message) = err (peer_rejected code message)
accept_welcome _ = err (protocol "expected Welcome")
