-- ===== src/Daemon/Requests.antt =====
-- crates/daemon/src/ipc_server.rs: every request of the daemon's socket. What the surroundings
-- answer is a parameter; a task that is spawned is named by what it is to do. The endpoints that are
-- bound stand beside the state, as in Lifecycle.
pub mod Serving
pub mod Dialing
use my_deskflow.Prelude.{
  ℕ, String, Bool, true, false, Option, none, some, List, [], ◌∷◌, if◌then◌else◌,
}
use my_deskflow.Prelude.Bytes.{Bytes}
use my_deskflow.Core.Error.{Error, Result, ok, err}
use my_deskflow.Core.Screen.{PeerId}
use my_deskflow.Core.Config.{Config, ServerRole}
use my_deskflow.Routing.Session.{PeerHandle}
use my_deskflow.Daemon.Lifecycle.{
  Bound, DaemonState, start_server, stop_server, emergency_stop, close_endpoint,
}

-- crates/network/src/client.rs, `ClientConfig`.
pub record ClientConfig : Type 0 where
  pub server_addr : String
  pub local_peer_id : PeerId
  pub local_peer_name : String
  pub trusted_fingerprints : List Bytes
  pub heartbeat_interval_ms : ℕ

-- The fields of `DaemonState` that the server role does not use stand beside it. A client has a
-- controller from its start-up on.
pub record Daemon : Type 0 where
  pub server : DaemonState
  pub config : Config
  pub fingerprint : Bytes
  pub has_client_controller : Bool
  pub client_base : Option ClientConfig

pub data IpcRequest : Type 0 where
  get_status get_config : IpcRequest
  update_config : Config → IpcRequest
  connect : Bytes → Option Bytes → IpcRequest  -- addr, fingerprint
  disconnect : String → IpcRequest
  start_server_request stop_server_request emergency_stop_request : IpcRequest
  subscribe_events : IpcRequest
  get_logs : ℕ → IpcRequest
  shutdown : IpcRequest

-- `StatusReply`; of a `PeerSummary`, who the peer is.
pub record StatusReply : Type 0 where
  pub version : String
  pub uptime_secs : ℕ
  pub role : ServerRole
  pub local_fingerprint : Bytes
  pub connected_peers : List PeerHandle
  pub capturing : Bool
  pub listening : Bool
  pub listen_addr : Option ℕ

pub data IpcResponse : Type 0 where
  status : StatusReply → IpcResponse
  config : Config → IpcResponse
  done : IpcResponse  -- `Ok`
  logs : List String → IpcResponse
  failure : String → IpcResponse  -- `Error`

-- What the task that a request spawns does with the controller.
pub data Dispatch : Type 0 where
  dial : ClientConfig → Dispatch
  hang_up : Dispatch

-- What a request leaves: no response if the process ends.
pub record Outcome : Type 0 where
  pub daemon : Daemon
  pub bound : List ℕ
  pub response : Option IpcResponse
  pub dispatched : List Dispatch

-- `SocketAddr::from_str` or else `Client::resolve`, `str::trim`, the clock and the texts of errors.
pub record Surroundings : Type 0 where
  pub resolve : Bytes → Result String String
  pub trim : Bytes → Bytes
  pub version : String
  pub uptime_secs : ℕ
  pub show : Error → String
  pub invalid_address : Bytes → String → String

abbrev pub reply : Daemon → List ℕ → IpcResponse → Outcome
reply d bound r = record { daemon = d; bound = bound; response = some r; dispatched = [] }

-- The result of an operation as a response: `Ok`, or the error's text.
abbrev pub response_of {ℓ} : {A : Type ℓ} → (Error → String) → Result Error A → IpcResponse
response_of show (ok a) = done
response_of show (err e) = failure (show e)

abbrev pub is_empty_text : Bytes → Bool
is_empty_text [] = true
is_empty_text (c ∷ cs) = false

-- The trusted fingerprints of a dial.
unfoldable pub pins : (Bytes → Bytes) → List Bytes → Option Bytes → List Bytes
pins trim trusted none = trusted
pins trim trusted (some fp) = if is_empty_text (trim fp) then trusted else (trim fp ∷ [])

-- The part of `handle_connect` behind the address.
unfoldable pub dispatch_dial : Surroundings → Daemon → List ℕ → String → Option Bytes → Outcome
dispatch_dial e d bound target fingerprint = elim d.client_base [
  | none ↦ reply d bound (failure "daemon is not running as a client; cannot connect")
  | some cfg ↦
      if d.has_client_controller
      then record {
        daemon = d;
        bound = bound;
        response = some done;
        dispatched =
            dial (record {
              server_addr = target;
              local_peer_id = cfg.local_peer_id;
              local_peer_name = cfg.local_peer_name;
              trusted_fingerprints = pins e.trim cfg.trusted_fingerprints fingerprint;
              heartbeat_interval_ms = cfg.heartbeat_interval_ms;
            })
            ∷ [];
      }
      else reply d bound (failure "daemon is not running as a client; cannot connect")
]

unfoldable pub handle_connect : Surroundings → Daemon → List ℕ → Bytes → Option Bytes → Outcome
handle_connect e d bound addr fingerprint = elim (e.resolve addr) [
  | ok target ↦ dispatch_dial e d bound target fingerprint
  | err x ↦ reply d bound (failure (e.invalid_address addr x))
]

unfoldable pub handle_request :
    Surroundings → Result Error Bound → Daemon → List ℕ → IpcRequest → Outcome
handle_request e binding d bound get_status = reply d bound (
    status (record {
      version = e.version;
      uptime_secs = e.uptime_secs;
      role = d.config.role;
      local_fingerprint = d.fingerprint;
      connected_peers = d.server.peers;
      capturing = d.server.capturing;
      listening = d.server.listening;
      listen_addr = d.server.listen_addr;
    }))
handle_request e binding d bound get_config = reply d bound (config d.config)
handle_request e binding d bound (update_config c) = reply (record d { config = c }) bound done
handle_request e binding d bound (connect addr fingerprint) =
    handle_connect e d bound addr fingerprint
handle_request e binding d bound (disconnect peer) =
    if d.has_client_controller
    then record { daemon = d; bound = bound; response = some done; dispatched = hang_up ∷ [] }
    else reply d bound (failure "not running as a client; nothing to disconnect")
handle_request e binding d bound start_server_request =
    let (s, started) = start_server d.server binding in
    reply (record d { server = s }) (elim started [ ok b ↦ b.0 ∷ bound | err x ↦ bound ])
      (response_of e.show started)
handle_request e binding d bound stop_server_request =
    let (s, closed) = stop_server d.server in
    reply (record d { server = s }) (elim closed [ none ↦ bound | some c ↦ close_endpoint c bound ])
      done
handle_request e binding d bound emergency_stop_request =
    reply (record d { server = emergency_stop d.server }) bound done
handle_request e binding d bound subscribe_events =
    reply d bound (failure "event streaming not yet implemented")
handle_request e binding d bound (get_logs tail) = reply d bound (logs [])
handle_request e binding d bound shutdown = record {
  daemon = d;
  bound = bound;
  response = none;
  dispatched = [];
}
