-- ===== src/Network/Supervisor.antt =====
-- The supervisor task of `ClientController` in crates/network/src/client.rs as a state machine, and
-- the peers that crates/daemon/src/app.rs tracks from its events. Cancelling a connection drops the
-- future of `connect_once` where it waits.
pub mod Stale
use my_deskflow.Prelude.{ℕ, Option, none, some, List, [], ◌∷◌, ◌++◌}
use my_deskflow.Core.Screen.{PeerId}
use my_deskflow.Routing.Session.{PeerHandle, retain}

-- `ClientCommand`; a server is known by its address.
pub data ClientCommand : Type 0 where
  dial : ℕ → ClientCommand
  hang_up : ClientCommand

pub data ClientEvent : Type 0 where
  connected : PeerHandle → ClientEvent
  disconnected : PeerId → ClientEvent

-- Where the loop waits: for a command, or for `connect_once` before or behind its handshake.
pub data Supervisor : Type 0 where
  waiting : Supervisor
  dialing : ℕ → Supervisor
  running : ℕ → PeerHandle → Supervisor

-- What can happen: a command, the end of a handshake, or the end of `connect_once`. Dropping the
-- controller, which ends the loop, is no input.
pub data Input : Type 0 where
  command : ClientCommand → Input
  established : PeerHandle → Input
  ended : Input

-- What the loop does with a command; one that arrives while `connect_once` runs cancels it.
abbrev pub on_command : ClientCommand → Supervisor
on_command (dial server) = dialing server
on_command hang_up = waiting

-- An input that cannot happen in a state changes nothing.
unfoldable pub supervise : Supervisor → Input → Supervisor × List ClientEvent
supervise s (command c) = (on_command c, [])
supervise (dialing server) (established p) = (running server p, connected p ∷ [])
supervise (running server p) ended = (waiting, disconnected p.peer_id ∷ [])
supervise (dialing server) ended = (waiting, [])
supervise s _ = (s, [])

-- `DaemonState.peers` behind the events.
unfoldable pub track : List PeerHandle → List ClientEvent → List PeerHandle
unfolding retain
track peers [] = peers
track peers (connected p ∷ es) = track (peers ++ (p ∷ [])) es
track peers (disconnected id ∷ es) = track (retain id peers) es

-- The supervisor and the tracked peers over a run.
unfoldable pub run_client : Supervisor → List PeerHandle → List Input → Supervisor × List PeerHandle
unfolding supervise track
run_client s peers [] = (s, peers)
run_client s peers (i ∷ is) =
    let (s', events) = supervise s i in run_client s' (track peers events) is
