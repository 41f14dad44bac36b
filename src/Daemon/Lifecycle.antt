-- ===== src/Daemon/Lifecycle.antt =====
-- crates/daemon/src/app.rs, `start_server` and `stop_server`, and the requests of
-- crates/daemon/src/ipc_server.rs that start, stop and stop in an emergency. What binding the
-- endpoint gives is part of the request. The peers are those of the fan-out task.
pub mod Coherence
use my_deskflow.Prelude.{
  ℕ, String, Bool, true, false, Option, none, some, List, [], ◌∷◌, ◌==◌, if◌then◌else◌,
}
use my_deskflow.Core.Error.{Error, Result, ok, err, other}
use my_deskflow.Routing.Session.{PeerHandle}

-- What `Server::bind` gives: the endpoint, and its address if that is known.
abbrev pub Bound : Type 0
Bound = ℕ × Option ℕ

-- `DaemonState`, as far as the server role goes; a controller is known by its endpoint.
pub record DaemonState : Type 0 where
  pub capturing : Bool
  pub peers : List PeerHandle
  pub server_controller : Option ℕ
  pub listening : Bool
  pub listen_addr : Option ℕ
  pub has_server_factory : Bool

bring_up : DaemonState → Result Error Bound → DaemonState × Result Error Bound
bring_up s (err e) = (s, err e)
bring_up s (ok (endpoint, addr)) = (
  record s {
    server_controller = some endpoint;
    listening = true;
    capturing = true;
    listen_addr = addr;
  },
  ok (endpoint, addr),
)

unfoldable pub start_server : DaemonState → Result Error Bound → DaemonState × Result Error Bound
unfolding bring_up
start_server s bound = elim s.server_controller [
  | some c ↦ (s, err (other "server is already running"))
  | none ↦
      if s.has_server_factory
      then bring_up s bound
      else (s, err (other "daemon is not running as a server"))
]

-- The endpoint that is closed, if there is one.
unfoldable pub stop_server : DaemonState → DaemonState × Option ℕ
stop_server s = (
  record s {
    listening = false;
    capturing = false;
    listen_addr = none;
    peers = [];
    server_controller = none;
  },
  s.server_controller,
)

unfoldable pub emergency_stop : DaemonState → DaemonState
emergency_stop s = record s { capturing = false }

-- `IpcRequest`, by the requests that change the server's state.
pub data IpcRequest : Type 0 where
  start : Result Error Bound → IpcRequest
  stop : IpcRequest
  emergency : IpcRequest

abbrev pub close_endpoint : ℕ → List ℕ → List ℕ
close_endpoint e [] = []
close_endpoint e (x ∷ xs) = let rest = close_endpoint e xs in if x == e then xs else x ∷ rest

-- The state and the endpoints that are bound and not closed.
unfoldable pub handle_request : DaemonState × List ℕ → IpcRequest → DaemonState × List ℕ
unfolding start_server stop_server emergency_stop
handle_request (s, bound) (start b) =
    ((start_server s b).0, elim (start_server s b).1 [ ok e ↦ e.0 ∷ bound | err e ↦ bound ])
handle_request (s, bound) stop =
    ((stop_server s).0, elim (stop_server s).1 [ none ↦ bound | some e ↦ close_endpoint e bound ])
handle_request (s, bound) emergency = (emergency_stop s, bound)

unfoldable pub handle_requests : DaemonState × List ℕ → List IpcRequest → DaemonState × List ℕ
handle_requests d [] = d
handle_requests d (r ∷ rs) = handle_requests (handle_request d r) rs
