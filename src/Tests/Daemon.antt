-- ===== src/Tests/Daemon.antt =====
-- The server's lifecycle at concrete inputs.
use my_deskflow.Prelude.{true, false, some, none, List, [], ◌∷◌}
use my_deskflow.Core.Error.{ok}
use my_deskflow.Daemon.Lifecycle.{DaemonState, IpcRequest, start, stop, emergency}

abbrev idle : DaemonState
idle = record {
  capturing = false;
  peers = [];
  server_controller = none;
  listening = false;
  listen_addr = none;
  has_server_factory = true;
}

abbrev requests : List IpcRequest
requests = start (ok (7, some 24800)) ∷ emergency ∷ start (ok (8, none)) ∷ stop ∷ []
