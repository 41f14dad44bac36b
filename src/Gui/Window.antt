-- ===== src/Gui/Window.antt =====
-- crates/gui/src/main.rs, `InputSyncApp::update` with the forms and buttons of its panels: what a
-- frame of the window does. What the user does in a frame, and what the system answers in it, are
-- an input; a click counts only where its button is drawn. Layout and colours are not modelled.
pub mod Allowed
pub mod Owned
pub mod Pinned
use my_deskflow.Prelude.{
  ℕ, ◌-◌, String, Bool, true, false, Option, none, some, List, [], ◌∷◌, ◌++◌, ltb, if◌then◌else◌,
}
use my_deskflow.Prelude.Bytes.{Bytes}
use my_deskflow.Core.Error.{Error, Result, ok, err}
use my_deskflow.Core.Files.{FileSystem}
use my_deskflow.Core.Config.{Toml, ServerRole, server, client}
use my_deskflow.Daemon.Requests.{IpcResponse, StatusReply, is_empty_text}
use my_deskflow.Gui.Actions.{
  Action, connect_to, disconnect_peer, run_server, stop_running, ActionResult, refused, copied,
  label, result_of, SharedState, note_action, note_poll, Panel, role_picker, launch_error,
  daemon_unreachable, connecting, client_panel, server_panel, panel,
}
use my_deskflow.Gui.Roles.{InputSyncApp, apply_role_choice}
use my_deskflow.Gui.Supervisor.{
  Moment, World, is_running, restart, ensure_running_throttled, remove_process,
}

-- The fields of the window, but for the path of the socket and the runtime.
pub record Window : Type 0 where
  pub app : InputSyncApp
  pub shared : SharedState
  pub poll_started : Bool
  pub addr_input : Bytes
  pub pin_input : Bytes

-- What the user does: the buttons and cards, and what the two fields of the form hold afterwards.
pub record Clicks : Type 0 where
  pub change_role : Bool
  pub server_clicked : Bool
  pub client_clicked : Bool
  pub retry_clicked : Bool
  pub restart_clicked : Bool
  pub connect_clicked : Bool
  pub disconnect_clicked : Bool
  pub run_or_stop_clicked : Bool
  pub copy_clicked : Bool
  pub addr_text : Bytes
  pub pin_text : Bytes

-- A frame: what the system answers above the panels and within them, and the clock.
pub record Frame : Type 0 where
  pub above : Moment
  pub within : Moment
  pub now : ℕ
  pub clicks : Clicks

launched : Moment → InputSyncApp → World × Result String (Unit {0}) → InputSyncApp
launched m app (w, err e) = record app { processes = w; supervisor_error = some e }
launched m app (w, ok _) =
    if is_running m w
    then record app { processes = w; supervisor_error = none }
    else record app { processes = w }

-- The launch at the top of a frame.
unfoldable pub auto_launch : Moment → InputSyncApp → InputSyncApp
unfolding launched
auto_launch m app =
    if app.role_decided then launched m app (ensure_running_throttled 3 m app.processes) else app

-- The button in the top bar.
abbrev pub role_changed : Bool → InputSyncApp → InputSyncApp
role_changed clicked app = if clicked then record app { role_decided = false } else app

-- `render_role_picker`.
abbrev pub picked : Bool → Bool → Option ServerRole
picked server_clicked client_clicked =
    if client_clicked then some client else if server_clicked then some server else none

-- "Retry launch": the result of the restart is dropped.
unfoldable pub retry_launch : Moment → InputSyncApp → InputSyncApp
retry_launch m app = record app { processes = (restart m app.processes).0; supervisor_error = none }

restarted_app : InputSyncApp → World × Result String (Unit {0}) → InputSyncApp
restarted_app app (w, ok _) = record app { processes = w; supervisor_error = none }
restarted_app app (w, err e) = record app { processes = w; supervisor_error = some e }

unfoldable pub restart_daemon : Moment → InputSyncApp → InputSyncApp
unfolding restarted_app
restart_daemon m app = restarted_app app (restart m app.processes)

-- The fingerprint of the form, if it is not blank.
unfoldable pub form_fingerprint : (Bytes → Bytes) → Bytes → Option Bytes
form_fingerprint trim text = if is_empty_text (trim text) then none else some (trim text)

-- What a frame leaves: what it dispatches, and what it copies to the clipboard.
pub record Drawn (Files : Type 0) : Type 0 where
  pub files : Files
  pub window : Window
  pub dispatched : List Action
  pub clipboard : Option Bytes

-- A click on "Connect".
unfoldable pub connect_click :
    (Bytes → Bytes) → ℕ → Clicks → SharedState → SharedState × List Action
unfolding form_fingerprint
connect_click trim now c s =
    if c.connect_clicked
    then (if is_empty_text (trim c.addr_text)
        then (record s { last_action = some (refused "Enter a server address first.", now) }, [])
        else (s, connect_to (trim c.addr_text) (form_fingerprint trim c.pin_text) ∷ []))
    else (s, [])

abbrev pub disconnect_click : Clicks → List Action
disconnect_click c = if c.disconnect_clicked then disconnect_peer ∷ [] else []

-- The one button that is drawn beside the state of the server.
unfoldable pub run_or_stop : Bool → Clicks → List Action
run_or_stop listening c =
    if c.run_or_stop_clicked then (if listening then stop_running ∷ [] else run_server ∷ []) else []

-- `render_action_status`: a result is shown for eight seconds.
unfoldable pub action_shown : ℕ → Option (ActionResult × ℕ) → Option ActionResult
action_shown now none = none
action_shown now (some (result, ts)) = if ltb 8000 (now - ts) then none else some result

-- What happens to the window: a frame, a round of the poll loop, the answer to an action with
-- the time of its arrival, or the end of a daemon.
pub data Input : Type 0 where
  frame : Frame → Input
  polled : Result String StatusReply → Input
  answered : Action → ℕ → Result String IpcResponse → Input
  died : ℕ → Input

module _ (fs : FileSystem) (toml : Toml) (show : Error → String) (trim : Bytes → Bytes) where
  open fs use {Files}

  abbrev pub still : Files → Window → Drawn Files
  still f w = record { files = f; window = w; dispatched = []; clipboard = none }

  -- Where the configuration is, and the name of the host.
  module _ (path : String) (parent : Option String) (name : String) where
    choose_role : Moment → Option ServerRole → Files → Window → Drawn Files
    choose_role m none f w = still f w
    choose_role m (some role) f w =
        let (g, app) = apply_role_choice fs toml show m path parent name role f w.app in
        still g (record w { app = app })

    render_client_panel : Frame → Files → Window → Drawn Files
    unfolding connect_click
    render_client_panel k f w =
        let (s, asked) = connect_click trim k.now k.clicks w.shared in
        record {
          files = f;
          window = record w {
            shared = s;
            addr_input = k.clicks.addr_text;
            pin_input = k.clicks.pin_text;
          };
          dispatched = asked ++ disconnect_click k.clicks;
          clipboard = none;
        }

    render_server_panel : StatusReply → Frame → Files → Window → Drawn Files
    unfolding run_or_stop
    render_server_panel s k f w = record {
      files = f;
      window =
          if k.clicks.copy_clicked
          then record w { shared = record w.shared { last_action = some (copied, k.now) } }
          else w;
      dispatched = run_or_stop s.listening k.clicks;
      clipboard = if k.clicks.copy_clicked then some s.local_fingerprint else none;
    }

    -- The panel that is drawn, with its buttons.
    render : Panel → Frame → Files → Window → Drawn Files
    unfolding choose_role render_client_panel render_server_panel retry_launch restart_daemon
    render role_picker k f w =
        choose_role k.within (picked k.clicks.server_clicked k.clicks.client_clicked) f w
    render (launch_error e) k f w =
        still f
          (if k.clicks.retry_clicked then record w { app = retry_launch k.within w.app } else w)
    render (daemon_unreachable e) k f w =
        still f
          (if k.clicks.restart_clicked then record w { app = restart_daemon k.within w.app } else w)
    render connecting k f w = still f w
    render (client_panel s) k f w = render_client_panel k f w
    render (server_panel s) k f w = render_server_panel s k f w

    -- The window above the panels.
    unfoldable pub above_panels : Frame → Window → Window
    unfolding auto_launch
    above_panels k w = record w {
      app = role_changed k.clicks.change_role (auto_launch k.above w.app);
      poll_started = true;
    }

    unfoldable pub update : Frame → Files → Window → Drawn Files
    unfolding render above_panels
    update k f w =
        let w' = above_panels k w in
        render (panel w'.app.role_decided w'.app.supervisor_error w'.shared) k f w'

    unfoldable pub step : Files × Window → Input → Files × Window
    unfolding update
    step (f, w) (frame k) = let d = update k f w in (d.files, d.window)
    step (f, w) (polled r) = (f, record w { shared = note_poll r w.shared })
    step (f, w) (answered a now r) =
        (f, record w { shared = note_action now (result_of (label a) r) w.shared })
    step (f, w) (died pid) = (
      f,
      record w {
        app = record w.app {
          processes = record w.app.processes { alive = remove_process pid w.app.processes.alive };
        };
      },
    )

    unfoldable pub run : Files × Window → List Input → Files × Window
    run s [] = s
    run s (i ∷ is) = run (step s i) is
