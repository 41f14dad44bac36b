-- ===== src/Core/Config.antt =====
-- crates/core/src/config.rs: the configuration, its defaults, and its file. The toml crate, the
-- file system and the environment are parameters; a socket address is its text.
pub mod Saved
use my_deskflow.Prelude.{ℕ, ◌*◌, String, Bool, true, false, Option, none, some, List, [], ◌≡◌}
use my_deskflow.Prelude.Bytes.{Bytes}
use my_deskflow.Core.Error.{
  Error, Result, ok, err, ◌>>=◌, map_err, io, config_missing, toml_de, toml_ser,
}
use my_deskflow.Core.Screen.{ScreenLayout}
use my_deskflow.Core.Files.{FileSystem, IoError, not_found, failed}

abbrev pub SocketAddr : Type 0
SocketAddr = String

pub data ServerRole : Type 0 where
  server client : ServerRole

pub record NetworkConfig : Type 0 where
  pub listen : SocketAddr
  pub connect : Option SocketAddr
  pub heartbeat_interval_ms : ℕ
  pub heartbeat_timeout_ms : ℕ
  pub reconnect_initial_ms : ℕ
  pub reconnect_max_ms : ℕ
  pub trusted_fingerprints : List Bytes

pub record ClipboardConfig : Type 0 where
  pub enabled : Bool
  pub max_bytes : ℕ
  pub sync_images : Bool
  pub sync_files : Bool

pub record FileTransferConfig : Type 0 where
  pub enabled : Bool
  pub drop_dir : Option String
  pub chunk_size : ℕ
  pub max_concurrent : ℕ
  pub compress : Bool

pub record Config : Type 0 where
  pub role : ServerRole
  pub peer_name : String
  pub network : NetworkConfig
  pub clipboard : ClipboardConfig
  pub file_transfer : FileTransferConfig
  pub layout : ScreenLayout
  pub emergency_hotkey : String
  pub log_dir : Option String

abbrev pub default_network : NetworkConfig
default_network = record {
  listen = "0.0.0.0:24800";
  connect = none;
  heartbeat_interval_ms = 2000;
  heartbeat_timeout_ms = 6000;
  reconnect_initial_ms = 500;
  reconnect_max_ms = 30000;
  trusted_fingerprints = [];
}

abbrev pub default_clipboard : ClipboardConfig
default_clipboard = record {
  enabled = true;
  max_bytes = 100 * 1024 * 1024;
  sync_images = true;
  sync_files = true;
}

abbrev pub default_file_transfer : FileTransferConfig
default_file_transfer = record {
  enabled = true;
  drop_dir = none;
  chunk_size = 64 * 1024;
  max_concurrent = 4;
  compress = true;
}

-- `hostname_or_unknown`, by the two variables of the environment.
unfoldable pub hostname_or_unknown : Option String → Option String → String
hostname_or_unknown (some computername) hostname = computername
hostname_or_unknown none (some hostname) = hostname
hostname_or_unknown none none = "unknown"

-- `Config::default`, with the name that `hostname_or_unknown` gave.
abbrev pub default_config : String → Config
default_config name = record {
  role = server;
  peer_name = name;
  network = default_network;
  clipboard = default_clipboard;
  file_transfer = default_file_transfer;
  layout = record { screens = []; neighbours = [] };
  emergency_hotkey = "Ctrl+Alt+Shift+Esc";
  log_dir = none;
}

-- The toml crate: `to_string_pretty` and `from_str`.
pub record Toml : Type 0 where
  pub to_string_pretty : Config → Result String Bytes
  pub from_str : Bytes → Result String Config

-- What is written of a configuration is read back.
abbrev pub ReadsBack : Toml → Config → Type 0
ReadsBack toml c = (text : Bytes) → toml.to_string_pretty c ≡ ok text → toml.from_str text ≡ ok c

-- `NotFound` is told apart; any other error of the read is passed on.
abbrev pub read_error : String → IoError → Error
read_error path not_found = config_missing path
read_error path (failed e) = io e

abbrev pub write_error : IoError → Error
write_error not_found = io "not found"
write_error (failed e) = io e

-- `if let Some(parent) = path.parent() { create_dir_all(parent)? }`, by the parent.
module _ (fs : FileSystem) (toml : Toml) where
  open fs use {Files, read, write, create_dir_all}

  unfoldable pub load : Files → String → Result Error Config
  load f path = do
    text ← map_err (read_error path) (read f path)
    map_err toml_de (toml.from_str text)

  pub create_parent : Files → Option String → Result Error Files
  create_parent f none = ok f
  create_parent f (some parent) = map_err write_error (create_dir_all f parent)

  unfoldable pub save : Files → Config → Option String → String → Result Error Files
  unfolding create_parent
  save f config parent path = do
    g ← create_parent f parent
    text ← map_err toml_ser (toml.to_string_pretty config)
    map_err write_error (write g path text)

  unfoldable pub load_or_default : String → Files → String → Config
  load_or_default name f path = elim (load f path) [ ok c ↦ c | err e ↦ default_config name ]
