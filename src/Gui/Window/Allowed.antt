-- ===== src/Gui/Window/Allowed.antt =====
-- When the window of crates/gui/src/main.rs asks the daemon for something.
use my_deskflow.Prelude.{
  ℕ, ◌≡◌, refl, String, true, false, Option, none, some, List, [], ◌⊎◌, inl, inr, arith, All,
  All-append, if_ind,
}
use my_deskflow.Prelude.Bytes.{Bytes}
use my_deskflow.Core.Error.{Error}
use my_deskflow.Core.Files.{FileSystem}
use my_deskflow.Core.Config.{Toml, ServerRole, server, client}
use my_deskflow.Daemon.Requests.{StatusReply, is_empty_text}
use my_deskflow.Gui.Actions.{
  Action, connect_to, disconnect_peer, run_server, stop_running, SharedState, Panel, role_picker,
  launch_error, daemon_unreachable, connecting, client_panel, server_panel, panel,
}
use my_deskflow.Gui.Window.{
  Window, Frame, Clicks, form_fingerprint, connect_click, disconnect_click, run_or_stop, picked,
  choose_role, render_client_panel, render_server_panel, render, above_panels, update,
}

-- A fingerprint that is given is not blank.
abbrev pub IsPresent : Option Bytes → Type 0
IsPresent none = Unit
IsPresent (some fp) = is_empty_text fp ≡ false

-- What may be asked of a daemon of that status.
abbrev pub IsAllowed : StatusReply → Action → Type 0
IsAllowed s (connect_to addr fp) = (s.role ≡ client) × (is_empty_text addr ≡ false) × IsPresent fp
IsAllowed s disconnect_peer = s.role ≡ client
IsAllowed s run_server = (s.role ≡ server) × (s.listening ≡ false)
IsAllowed s stop_running = (s.role ≡ server) × (s.listening ≡ true)

-- The window shows a status that the daemon gave, and no error.
pub record Shows (w : Window) (s : StatusReply) : Type 0 where
  pub decided : w.app.role_decided ≡ true
  pub launches : w.app.supervisor_error ≡ none
  pub reached : w.shared.error ≡ none
  pub seen : w.shared.status_seen ≡ some s

abbrev shown_panel : Window → Panel
shown_panel w = panel w.app.role_decided w.app.supervisor_error w.shared

client-Shows :
    (w : Window) (s : StatusReply) → shown_panel w ≡ client_panel s → Shows w s × (s.role ≡ client)
unfolding panel
client-Shows w s h = ground arith

server-Shows :
    (w : Window) (s : StatusReply) → shown_panel w ≡ server_panel s → Shows w s × (s.role ≡ server)
unfolding panel
server-Shows w s h = ground arith

form_fingerprint-IsPresent :
    (trim : Bytes → Bytes) (text : Bytes) → IsPresent (form_fingerprint trim text)
unfolding form_fingerprint
form_fingerprint-IsPresent trim text =
    if_ind IsPresent (is_empty_text (trim text)) (λ e. tt) (λ e. e)

disconnect_click-IsAllowed :
    (s : StatusReply) (c : Clicks) → s.role ≡ client → All (IsAllowed s) (disconnect_click c)
disconnect_click-IsAllowed s c r =
    if_ind (All (IsAllowed s)) c.disconnect_clicked (λ e. (r, tt)) (λ e. tt)

connect_click-IsAllowed :
    (trim : Bytes → Bytes) (now : ℕ) (c : Clicks) (shared : SharedState) (s : StatusReply)
    → s.role ≡ client
    → All (IsAllowed s) (connect_click trim now c shared).1
unfolding connect_click
connect_click-IsAllowed trim now c shared s r =
    if_ind (λ (x : SharedState × List Action). All (IsAllowed s) x.1) c.connect_clicked
      (λ e.
        if_ind (λ (x : SharedState × List Action). All (IsAllowed s) x.1)
          (is_empty_text (trim c.addr_text)) (λ blank. tt)
          (λ given. ((r, given, form_fingerprint-IsPresent trim c.pin_text), tt)))
      (λ e. tt)

run_or_stop-IsAllowed :
    (s : StatusReply) (c : Clicks) → s.role ≡ server → All (IsAllowed s) (run_or_stop s.listening c)
unfolding run_or_stop
run_or_stop-IsAllowed s c r =
    if_ind (All (IsAllowed s)) c.run_or_stop_clicked
      (λ e. if_ind (All (IsAllowed s)) s.listening (λ on. ((r, on), tt)) (λ off. ((r, off), tt)))
      (λ e. tt)

module _ (fs : FileSystem) (toml : Toml) (show : Error → String) (trim : Bytes → Bytes)
    (path : String) (parent : Option String) (name : String) where
  open fs use {Files}

  -- Nothing is dispatched, or it is allowed by the status that the window shows.
  abbrev pub IsFair : Window → List Action → Type 0
  IsFair w asked = (asked ≡ []) ⊎ ((s : StatusReply) × Shows w s × All (IsAllowed s) asked)

  choose_role-quiet :
      (k : Frame) (role : Option ServerRole) (f : Files) (w : Window)
      → (choose_role fs toml show trim path parent name k.within role f w).dispatched ≡ []
  unfolding choose_role
  choose_role-quiet k none f w = refl
  choose_role-quiet k (some role) f w = refl

  render-IsFair :
      (p : Panel) (k : Frame) (f : Files) (w : Window)
      → shown_panel w ≡ p
      → IsFair w (render fs toml show trim path parent name p k f w).dispatched
  unfolding render render_client_panel render_server_panel
  render-IsFair role_picker k f w h =
      inl (choose_role-quiet k (picked k.clicks.server_clicked k.clicks.client_clicked) f w)
  render-IsFair (launch_error e) k f w h = inl refl
  render-IsFair (daemon_unreachable e) k f w h = inl refl
  render-IsFair connecting k f w h = inl refl
  render-IsFair (client_panel s) k f w h =
      let (shows, role) = client-Shows w s h in
      inr (
        s,
        shows,
        All-append (IsAllowed s) (connect_click trim k.now k.clicks w.shared).1
            (disconnect_click k.clicks)
            (connect_click-IsAllowed trim k.now k.clicks w.shared s role)
            (disconnect_click-IsAllowed s k.clicks role),
      )
  render-IsFair (server_panel s) k f w h =
      let (shows, role) = server-Shows w s h in
      inr (s, shows, run_or_stop-IsAllowed s k.clicks role)

  -- A frame dispatches nothing, or a role is decided, there is no error and the window shows a
  -- status, which allows all that the frame dispatches: to connect, with an address and without a
  -- blank fingerprint, and to disconnect at a client; to run at a server that does not listen, and
  -- to stop at one that does.
  pub update-IsFair :
      (k : Frame) (f : Files) (w : Window)
      → IsFair
          (above_panels fs toml show trim path parent name k w)
          (update fs toml show trim path parent name k f w).dispatched
  unfolding update
  update-IsFair k f w =
      let w' = above_panels fs toml show trim path parent name k w in
      render-IsFair (shown_panel w') k f w' refl
