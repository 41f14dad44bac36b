-- ===== src/Gui/Window/Owned.antt =====
-- How many daemons the window of crates/gui/src/main.rs has running.
use my_deskflow.Prelude.{◌≡◌, String, false, Option, none, some, List, [], ◌∷◌, All, if_ind}
use my_deskflow.Prelude.Bytes.{Bytes}
use my_deskflow.Core.Error.{Error, Result, ok, err}
use my_deskflow.Core.Files.{FileSystem}
use my_deskflow.Core.Config.{Toml, ServerRole, save, load_or_default}
use my_deskflow.Gui.Actions.{
  Panel, role_picker, launch_error, daemon_unreachable, connecting, client_panel, server_panel,
  panel,
}
use my_deskflow.Gui.Roles.{InputSyncApp, settled, restarted, apply_role_choice}
use my_deskflow.Gui.Supervisor.{Moment, World, is_running, stop, restart, ensure_running_throttled}
use my_deskflow.Gui.Supervisor.Ownership.{IsOwned, throttled-IsOwned, stop-alive, step-IsOwned}
use my_deskflow.Gui.Supervisor.Ownership
use my_deskflow.Gui.Window.{
  Window, Frame, Input, frame, polled, answered, died, launched, auto_launch, retry_launch,
  restarted_app, restart_daemon, choose_role, picked, render_client_panel, render_server_panel,
  render, above_panels, update, step, run,
}

-- `try_wait` answers in the frame.
abbrev pub CanWait : Input → Type 0
CanWait (frame k) = (k.above.wait_fails ≡ false) × (k.within.wait_fails ≡ false)
CanWait _ = Unit {0}

abbrev pub Owned : InputSyncApp → Type 0
Owned app = IsOwned app.processes

restart-IsOwned :
    (m : Moment) (w : World) → m.wait_fails ≡ false → IsOwned w → IsOwned (restart m w).0
restart-IsOwned m w can h = unfold Ownership.step in step-IsOwned w (Ownership.restarted m) can h

launched-Owned :
    (m : Moment) (app : InputSyncApp) (r : World × Result String (Unit {0}))
    → IsOwned r.0
    → Owned (launched m app r)
unfolding launched
launched-Owned m app (w, err e) h = h
launched-Owned m app (w, ok _) h = if_ind Owned (is_running m w) (λ e. h) (λ e. h)

auto_launch-Owned :
    (m : Moment) (app : InputSyncApp) → m.wait_fails ≡ false → Owned app → Owned (auto_launch m app)
unfolding auto_launch
auto_launch-Owned m app can h =
    if_ind Owned app.role_decided
      (λ e.
        launched-Owned m app (ensure_running_throttled 3 m app.processes)
          (throttled-IsOwned 3 m app.processes can h))
      (λ e. h)

restarted_app-Owned :
    (app : InputSyncApp) (r : World × Result String (Unit {0}))
    → IsOwned r.0
    → Owned (restarted_app app r)
unfolding restarted_app
restarted_app-Owned app (w, ok _) h = h
restarted_app-Owned app (w, err e) h = h

settled-Owned :
    (app : InputSyncApp) (r : World × Result String (Unit {0}))
    → IsOwned r.0
    → Owned (settled app r.0 r.1)
settled-Owned app (w, ok _) h = h
settled-Owned app (w, err e) h = h

module _ (fs : FileSystem) (toml : Toml) (show : Error → String) where
  open fs use {Files}

  restarted-Owned :
      (m : Moment) (app : InputSyncApp) (f : Files) (saved : Result Error Files)
      → m.wait_fails ≡ false
      → Owned app
      → Owned (restarted fs toml show m app f saved).1
  unfolding restarted
  restarted-Owned m app f (ok g) can h =
      settled-Owned app (restart m app.processes) (restart-IsOwned m app.processes can h)
  restarted-Owned m app f (err e) can h = h

  module _ (trim : Bytes → Bytes) (path : String) (parent : Option String) (name : String) where
    choose_role-Owned :
        (m : Moment) (role : Option ServerRole) (f : Files) (w : Window)
        → m.wait_fails ≡ false
        → Owned w.app
        → Owned (choose_role fs toml show trim path parent name m role f w).window.app
    unfolding choose_role apply_role_choice
    choose_role-Owned m none f w can h = h
    choose_role-Owned m (some role) f w can h =
        restarted-Owned m w.app f
          (save fs toml f (record (load_or_default fs toml name f path) { role = role }) parent
            path)
          can h

    render-Owned :
        (p : Panel) (k : Frame) (f : Files) (w : Window)
        → k.within.wait_fails ≡ false
        → Owned w.app
        → Owned (render fs toml show trim path parent name p k f w).window.app
    unfolding render render_client_panel render_server_panel retry_launch restart_daemon
    render-Owned role_picker k f w can h =
        choose_role-Owned k.within (picked k.clicks.server_clicked k.clicks.client_clicked) f w can
          h
    render-Owned (launch_error e) k f w can h =
        if_ind (λ (v : Window). Owned v.app) k.clicks.retry_clicked
          (λ c. restart-IsOwned k.within w.app.processes can h) (λ c. h)
    render-Owned (daemon_unreachable e) k f w can h =
        if_ind (λ (v : Window). Owned v.app) k.clicks.restart_clicked
          (λ c.
            restarted_app-Owned w.app (restart k.within w.app.processes)
              (restart-IsOwned k.within w.app.processes can h))
          (λ c. h)
    render-Owned connecting k f w can h = h
    render-Owned (client_panel s) k f w can h = h
    render-Owned (server_panel s) k f w can h =
        if_ind (λ (v : Window). Owned v.app) k.clicks.copy_clicked (λ c. h) (λ c. h)

    step-Owned :
        (s : Files × Window) (i : Input)
        → CanWait i
        → Owned s.1.app
        → Owned (step fs toml show trim path parent name s i).1.app
    unfolding step update above_panels
    step-Owned (f, w) (frame k) (can, can') h =
        let w' = above_panels fs toml show trim path parent name k w in
        render-Owned (panel w'.app.role_decided w'.app.supervisor_error w'.shared) k f w' can' (
          if_ind Owned k.clicks.change_role (λ c. auto_launch-Owned k.above w.app can h)
            (λ c. auto_launch-Owned k.above w.app can h))
    step-Owned (f, w) (polled r) can h = h
    step-Owned (f, w) (answered a now r) can h = h
    step-Owned (f, w) (died pid) can h =
        unfold Ownership.step in step-IsOwned w.app.processes (Ownership.died pid) tt h

    -- Over every run of frames of the window, rounds of the poll loop, answers to actions and ends
    -- of processes in which try_wait answers, no daemon lives but the supervisor's child, if so at
    -- first, and a final stop leaves none alive.
    pub run-Owned :
        (s : Files × Window) (is : List Input)
        → All CanWait is
        → Owned s.1.app
        → Owned (run fs toml show trim path parent name s is).1.app
          × ((stop (run fs toml show trim path parent name s is).1.app.processes).alive ≡ [])
    unfolding run
    run-Owned s [] can h = (h, stop-alive s.1.app.processes h)
    run-Owned s (i ∷ is) can h =
        run-Owned (step fs toml show trim path parent name s i) is can.1 (step-Owned s i can.0 h)
