-- ===== src/Daemon/Main.antt =====
-- crates/daemon/src/main.rs: the commands of the daemon, with `run` and `print_fingerprint` of
-- crates/daemon/src/app.rs. What the machine answers is an argument; clap has read the command line.
-- An error forgets what the command had written before.
pub mod Fingerprint
use my_deskflow.Prelude.{ℕ, String, Bool, true, false, not, Option, none, some, List, if◌then◌else◌}
use my_deskflow.Prelude.Bytes.{Bytes}
use my_deskflow.Core.Error.{Error, Result, ok, ◌>>=◌}
use my_deskflow.Core.Screen.{PeerId}
use my_deskflow.Core.Files.{FileSystem}
use my_deskflow.Core.Config.{Toml, load}
use my_deskflow.Network.Tls.{CertPaths, Generated, Hash, load_or_generate}
use my_deskflow.Daemon.Requests.{Daemon, Dispatch}
use my_deskflow.Daemon.Startup.{
  RunArgs, configure, or_missing, make_controller, set_up_role, init_config,
}

pub data Command : Type 0 where
  -- role, listen, connect, pin and no_ipc
  run_daemon : Option Bytes → Option String → Option String → List Bytes → Bool → Command
  write_config : Bool → Command  -- `InitConfig`
  fingerprint : Command
  install_service uninstall_service : Command

-- The machine: where its files are, its name, what a new certificate would be, the identifier of
-- the process, whether there is a platform, and whether the socket and a client's endpoint can be
-- bound.
pub record Host : Type 0 where
  pub default_path : Result Error String
  pub parent : String → Option String
  pub name : String
  pub cert_dir : Result Error CertPaths
  pub generated : Generated
  pub id : PeerId
  pub platform : Result Error (Unit {0})
  pub listener : Result Error (Unit {0})
  pub endpoint : Result String (Unit {0})

-- What a command comes to: a daemon that runs, with its first dials and whether it has a socket, or
-- the end of the process, with what it prints.
pub data Outcome : Type 0 where
  running : Daemon × List Dispatch → Bool → Outcome
  wrote : String → Outcome
  printed : Bytes → Outcome
  packaging_step : Outcome

abbrev pub path_of : Host → Option String → Result Error String
path_of h none = h.default_path
path_of h (some p) = ok p

abbrev pub bind_ipc : Host → Bool → Result Error (Unit {0})
bind_ipc h enabled = if enabled then h.listener else ok tt

module _ (fs : FileSystem) (toml : Toml) (hash : Hash) where
  open fs use {Files}

  -- `run`, up to its tasks.
  unfoldable pub run :
      Host → Option String → RunArgs → Bool → Files → Result Error (Outcome × Files)
  run h config args ipc_enabled f = do
    path ← path_of h config
    loaded ← or_missing h.name (load fs toml f path)
    c ← configure args loaded
    paths ← h.cert_dir
    (cert, g) ← load_or_generate fs hash paths h.generated f
    _ ← h.platform
    _ ← bind_ipc h ipc_enabled
    _ ← make_controller c.role h.endpoint
    ok (running (set_up_role h.id cert.fingerprint_hex c c.role) ipc_enabled, g)

  unfoldable pub print_fingerprint : Host → Files → Result Error (Outcome × Files)
  print_fingerprint h f = do
    paths ← h.cert_dir
    (cert, g) ← load_or_generate fs hash paths h.generated f
    ok (printed cert.fingerprint_hex, g)

  -- `main`, with the path of the configuration from the command line, if any.
  unfoldable pub main : Host → Option String → Command → Files → Result Error (Outcome × Files)
  unfolding run print_fingerprint
  main h config (run_daemon role listen connect pin no_ipc) f =
      run h config
        (record {
          role_override = role;
          listen_override = listen;
          connect_override = connect;
          pinned_fingerprints = pin;
        })
        (not no_ipc) f
  main h config (write_config force) f = do
    path ← path_of h config
    g ← init_config fs toml f (h.parent path) path h.name force
    ok (wrote path, g)
  main h config fingerprint f = print_fingerprint h f
  main h config install_service f = ok (packaging_step, f)
  main h config uninstall_service f = ok (packaging_step, f)
