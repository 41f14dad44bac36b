-- ===== src/Routing/Client.antt =====
-- crates/daemon/src/session.rs, `handle_peer_events_client`: the server as the client's one peer.
use my_deskflow.Prelude.{ℕ, ◌≡◌, refl, List, [], ◌∷◌, ◌++◌}
use my_deskflow.Network.Supervisor.{ClientEvent, connected, disconnected, track}
use my_deskflow.Routing.Session.{PeerHandle, Effect, spawn_heartbeat, spawn_inbound, retain}

-- One round: the peers that the clipboard is sent to, and the tasks that start.
unfoldable pub client_step : ℕ → List PeerHandle → ClientEvent → List PeerHandle × List Effect
client_step heartbeat_interval_ms peers (connected handle) = (
  peers ++ (handle ∷ []),
  spawn_heartbeat handle heartbeat_interval_ms ∷ spawn_inbound handle ∷ [],
)
client_step heartbeat_interval_ms peers (disconnected peer_id) = (retain peer_id peers, [])

unfoldable pub client_steps : ℕ → List PeerHandle → List ClientEvent → List PeerHandle
client_steps heartbeat_interval_ms peers [] = peers
client_steps heartbeat_interval_ms peers (e ∷ es) =
    client_steps heartbeat_interval_ms (client_step heartbeat_interval_ms peers e).0 es

-- The session and the daemon's state, which get the same events, keep the same peers.
pub client_steps-eq-track :
    (heartbeat_interval_ms : ℕ) (peers : List PeerHandle) (es : List ClientEvent)
    → client_steps heartbeat_interval_ms peers es ≡ track peers es
unfolding client_steps client_step track
client_steps-eq-track n peers [] = refl
client_steps-eq-track n peers (connected p ∷ es) = client_steps-eq-track n (peers ++ (p ∷ [])) es
client_steps-eq-track n peers (disconnected id ∷ es) = client_steps-eq-track n (retain id peers) es
