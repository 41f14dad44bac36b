-- ===== src/Gui/Roles.antt =====
-- crates/gui/src/main.rs, `apply_role_choice`: the role that the user picks is written to the file
-- of the configuration, and the daemon is started again.
pub mod Chosen
use my_deskflow.Prelude.{
  ℕ, String, ◌≡◌, ◌≢◌, refl, arith, Bool, true, false, Option, none, some, List, [], ◌∷◌, inl, inr,
}
use my_deskflow.Prelude.Bytes.{Bytes}
use my_deskflow.Core.Error.{
  Error, Result, ok, err, ◌>>=◌, map_err, other, config_missing, bind_inversion, map_err-ok,
  Result-cases,
}
use my_deskflow.Core.Screen.{PeerId}
use my_deskflow.Core.Files.{FileSystem, FileLaws}
use my_deskflow.Core.Config.{
  Config, ServerRole, Toml, ReadsBack, default_config, load, save, load_or_default,
}
use my_deskflow.Core.Config.Saved.{load-save}
use my_deskflow.Daemon.Requests.{Daemon, Dispatch}
use my_deskflow.Daemon.Startup.{RunArgs, configure, role_for, set_up_role, start_up}
use my_deskflow.Gui.Supervisor.{Moment, World, restart}

-- The fields of `InputSyncApp` that a choice changes.
pub record InputSyncApp : Type 0 where
  pub processes : World
  pub role_decided : Bool
  pub supervisor_error : Option String

abbrev pub settled : InputSyncApp → World → Result String (Unit {0}) → InputSyncApp
settled app w (ok _) = record { processes = w; role_decided = true; supervisor_error = none }
settled app w (err e) = record app { processes = w; supervisor_error = some e }

module _ (fs : FileSystem) (toml : Toml) (show : Error → String) where
  open fs use {Files}

  -- Behind the save: the files, and the restart.
  unfoldable pub restarted :
      Moment → InputSyncApp → Files → Result Error Files → Files × InputSyncApp
  restarted m app f (ok g) = let (w, r) = restart m app.processes in (g, settled app w r)
  restarted m app f (err e) = (f, record app { supervisor_error = some (show e) })

  unfoldable pub apply_role_choice :
      Moment
      → String
      → Option String
      → String
      → ServerRole
      → Files
      → InputSyncApp
      → Files × InputSyncApp
  unfolding restarted
  apply_role_choice m path parent name role f app =
      restarted m app f
        (save fs toml f (record (load_or_default fs toml name f path) { role = role }) parent path)
