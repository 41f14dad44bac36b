-- ===== src/Gui/Roles/Chosen.antt =====
-- What the choice of a role in crates/gui/src/main.rs leaves for the daemon.
use my_deskflow.Prelude.{String, ◌≡◌, ◌⊎◌, inl, inr, sym, ◌∙◌, refl, Option}
use my_deskflow.Prelude.Bytes.{Bytes}
use my_deskflow.Core.Error.{Error, Result, ok, err}
use my_deskflow.Core.Screen.{PeerId}
use my_deskflow.Core.Files.{FileSystem, FileLaws}
use my_deskflow.Core.Config.{
  Config, ServerRole, Toml, ReadsBack, default_config, load, save, load_or_default,
}
use my_deskflow.Core.Config.Saved.{load-save}
use my_deskflow.Daemon.Startup.{set_up_role, start_up}
use my_deskflow.Daemon.Startup.Roles.{no_args, configure-no_args, make_controller-ok}
use my_deskflow.Gui.Supervisor.{Moment}
use my_deskflow.Gui.Roles.{InputSyncApp, restarted, apply_role_choice}

module _ (fs : FileSystem) (laws : FileLaws fs) (toml : Toml) (show : Error → String) where
  open fs use {Files}

  restarted-files :
      (m : Moment) (app : InputSyncApp) (f g : Files) (saved : Result Error Files)
      → saved ≡ ok g
      → (restarted fs toml show m app f saved).0 ≡ g
  unfolding restarted
  restarted-files m app f g saved h = rw h refl

  load_or_default-err :
      (f : Files) (path name : String) (e : Error)
      → load fs toml f path ≡ err e
      → load_or_default fs toml name f path ≡ default_config name
  unfolding load_or_default
  load_or_default-err f path name e bad = rw (bad, load_or_default) refl

  load_or_default-ok :
      (f : Files) (path name : String) (c : Config)
      → load fs toml f path ≡ ok c
      → load_or_default fs toml name f path ≡ c
  unfolding load_or_default
  load_or_default-ok f path name c good = rw (good, load_or_default) refl

  -- The configuration before a choice: that of the file, or the defaults where none can be loaded.
  abbrev pub IsBefore : Files → String → String → Config → Type 0
  IsBefore f path name before =
      (load fs toml f path ≡ ok before)
      ⊎ ((e : Error) × (load fs toml f path ≡ err e) × (before ≡ default_config name))

  load_or_default-IsBefore :
      (f : Files) (path name : String) (before : Config)
      → IsBefore f path name before
      → load_or_default fs toml name f path ≡ before
  load_or_default-IsBefore f path name before (inl good) =
      load_or_default-ok f path name before good
  load_or_default-IsBefore f path name before (inr (e, bad, same)) =
      load_or_default-err f path name e bad ∙ sym same

  -- Over a file system that keeps its laws: a daemon that is started without options after a
  -- choice of a role, whose configuration could be saved and is read back by toml, and for which
  -- the endpoint of a client can be made, is in the chosen role, and in all else has the
  -- configuration that the file held before, or the defaults where it could not be loaded.
  pub start_up-apply_role_choice :
      (m : Moment) (path name later : String) (parent : Option String) (role : ServerRole)
      (f g : Files) (app : InputSyncApp) (id : PeerId) (fingerprint : Bytes) (before : Config)
      (endpoint : Result String (Unit {0}))
      → IsBefore f path name before
      → ReadsBack toml (record before { role = role })
      → save fs toml f (record before { role = role }) parent path ≡ ok g
      → endpoint ≡ ok tt
      → start_up fs toml no_args path later id fingerprint endpoint
          (apply_role_choice fs toml show m path parent name role f app).0
        ≡ ok (set_up_role id fingerprint (record before { role = role }) role)
  unfolding apply_role_choice start_up
  start_up-apply_role_choice m path name later parent role f g app id fingerprint before endpoint
        was back h bound =
      rw (load_or_default-IsBefore f path name before was) (
        rw
          (
            restarted-files m app f g _ h,
            (load-save fs laws toml f g (record before { role = role }) parent path name back h).0,
            configure-no_args (record before { role = role }),
            make_controller-ok role endpoint bound,
          )
          refl)

  -- Over a file system that keeps its laws: a file that cannot be read or parsed is written over
  -- by the choice of a role, when the default configuration in that role can be saved and is read
  -- back: it is what is loaded then.
  pub apply_role_choice-unreadable :
      (m : Moment) (path name : String) (parent : Option String) (role : ServerRole) (f g : Files)
      (app : InputSyncApp) (e : Error)
      → load fs toml f path ≡ err e
      → ReadsBack toml (record (default_config name) { role = role })
      → save fs toml f (record (default_config name) { role = role }) parent path ≡ ok g
      → load fs toml (apply_role_choice fs toml show m path parent name role f app).0 path
        ≡ ok (record (default_config name) { role = role })
  unfolding apply_role_choice
  apply_role_choice-unreadable m path name parent role f g app e bad back h =
      rw (load_or_default-err f path name e bad) (
        rw (restarted-files m app f g _ h)
          (load-save fs laws toml f g (record (default_config name) { role = role }) parent path
            name back h).0)
