-- ===== src/Daemon/Startup.antt =====
-- crates/daemon/src/app.rs, `run` up to its tasks: the configuration that holds, and the state that
-- the requests meet first; and `init_config`. The fingerprint of the certificate is an argument, and
-- the texts of errors leave out the names that the code puts into them.
pub mod Roles
use my_deskflow.Prelude.{
  ℕ, String, Bool, true, false, not, ◌&&◌, Option, none, some, List, [], ◌∷◌, if◌then◌else◌,
}
use my_deskflow.Prelude.Bytes.{Bytes, to_ascii_lowercase, eq_bytes}
use my_deskflow.Core.Error.{Error, Result, ok, err, ◌>>=◌, map_err, config_missing, other}
use my_deskflow.Core.Screen.{PeerId}
use my_deskflow.Core.Files.{FileSystem}
use my_deskflow.Core.Config.{
  Config, NetworkConfig, ServerRole, server, client, Toml, default_config, load, save,
}
use my_deskflow.Daemon.Lifecycle.{DaemonState}
use my_deskflow.Daemon.Requests.{ClientConfig, Daemon, Dispatch, dial}

-- `RunArgs`, but for the path of the configuration and whether there is a socket.
pub record RunArgs : Type 0 where
  pub role_override : Option Bytes
  pub listen_override : Option String
  pub connect_override : Option String
  pub pinned_fingerprints : List Bytes

abbrev pub server_name : Bytes
server_name = b's' ∷ b'e' ∷ b'r' ∷ b'v' ∷ b'e' ∷ b'r' ∷ []

abbrev pub client_name : Bytes
client_name = b'c' ∷ b'l' ∷ b'i' ∷ b'e' ∷ b'n' ∷ b't' ∷ []

unfoldable pub parse_role : Bytes → Result Error ServerRole
parse_role text =
    let role = to_ascii_lowercase text in
    if eq_bytes role server_name
    then ok server
    else if eq_bytes role client_name
    then ok client
    else err (other "unknown role; expected server or client")

unfoldable pub role_for : ServerRole → Option Bytes → Result Error ServerRole
unfolding parse_role
role_for configured none = ok configured
role_for configured (some text) = parse_role text

abbrev pub unwrap_or : {A : Type 0} → A → Option A → A
unwrap_or a none = a
unwrap_or a (some b) = b

abbrev pub overridden : Option String → Option String → Option String
overridden configured none = configured
overridden configured (some a) = some a

abbrev pub pins_for : List Bytes → List Bytes → List Bytes
pins_for configured [] = configured
pins_for configured (p ∷ ps) = p ∷ ps

unfoldable pub configure : RunArgs → Config → Result Error Config
configure args c = role_for c.role args.role_override >>= λ role. ok (record c {
  role = role;
  network = record c.network {
    listen = unwrap_or c.network.listen args.listen_override;
    connect = overridden c.network.connect args.connect_override;
    trusted_fingerprints = pins_for c.network.trusted_fingerprints args.pinned_fingerprints;
  };
})

-- A missing file gives the defaults; any other error ends the daemon.
abbrev pub or_missing : String → Result Error Config → Result Error Config
or_missing name (ok c) = ok c
or_missing name (err (config_missing path)) = ok (default_config name)
or_missing name (err e) = err e

abbrev pub idle : Bool → DaemonState
idle has_factory = record {
  capturing = false;
  peers = [];
  server_controller = none;
  listening = false;
  listen_addr = none;
  has_server_factory = has_factory;
}

abbrev pub base_config : PeerId → Config → ClientConfig
base_config id c = record {
  server_addr = unwrap_or "0.0.0.0:0" c.network.connect;
  local_peer_id = id;
  local_peer_name = c.peer_name;
  trusted_fingerprints = c.network.trusted_fingerprints;
  heartbeat_interval_ms = c.network.heartbeat_interval_ms;
}

abbrev pub first_dial : ClientConfig → Option String → List Dispatch
first_dial base none = []
first_dial base (some addr) = dial (record base { server_addr = addr }) ∷ []

-- The state once the role is set up, for a client with its controller made, and the dial that follows at once, if any.
unfoldable pub set_up_role : PeerId → Bytes → Config → ServerRole → Daemon × List Dispatch
set_up_role id fingerprint c server = (
  record {
    server = idle true;
    config = c;
    fingerprint = fingerprint;
    has_client_controller = false;
    client_base = none;
  },
  [],
)
set_up_role id fingerprint c client = (
  record {
    server = idle false;
    config = c;
    fingerprint = fingerprint;
    has_client_controller = true;
    client_base = some (base_config id c);
  },
  first_dial (base_config id c) c.network.connect,
)

-- `ClientController::new`, which a client needs: whether its endpoint can be bound.
unfoldable pub make_controller : ServerRole → Result String (Unit {0}) → Result Error (Unit {0})
make_controller server endpoint = ok tt
make_controller client endpoint = map_err other endpoint

module _ (fs : FileSystem) (toml : Toml) where
  open fs use {Files, exists}

  unfoldable pub start_up :
      RunArgs
      → String
      → String
      → PeerId
      → Bytes
      → Result String (Unit {0})
      → Files
      → Result Error (Daemon × List Dispatch)
  start_up args path name id fingerprint endpoint f = do
    loaded ← or_missing name (load fs toml f path)
    c ← configure args loaded
    _ ← make_controller c.role endpoint
    ok (set_up_role id fingerprint c c.role)

  -- `init_config`, with the parent of the path.
  unfoldable pub init_config : Files → Option String → String → String → Bool → Result Error Files
  init_config f parent path name force =
      if exists f path && not force
      then err (other "config already exists; pass --force to overwrite")
      else save fs toml f (default_config name) parent path
