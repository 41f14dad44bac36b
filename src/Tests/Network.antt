-- ===== src/Tests/Network.antt =====
-- The handshake and the supervisor at concrete inputs.
use my_deskflow.Prelude.{◌≡◌, List, [], ◌∷◌}
use my_deskflow.Routing.Session.{PeerHandle}
use my_deskflow.Network.Handshake.{LocalPeer}
use my_deskflow.Network.Supervisor.{
  dial, waiting, Input, command, established, ended, supervise, run_client,
}
use my_deskflow.Network.Supervisor.Stale.{active, run_client-active}

abbrev pub desk : LocalPeer
desk = record { local_peer_id = 1; local_peer_name = "desk" }

abbrev pub laptop : LocalPeer
laptop = record { local_peer_id = 2; local_peer_name = "laptop" }

abbrev server : PeerHandle
server = record { peer_id = 1; peer_name = "desk" }

abbrev session : List Input
session = command (dial 5) ∷ established server ∷ ended ∷ command (dial 6) ∷ []

run_client-active_example :
    (run_client waiting [] session).1 ≡ active (run_client waiting [] session).0
unfolding supervise
run_client-active_example = run_client-active waiting session tt
