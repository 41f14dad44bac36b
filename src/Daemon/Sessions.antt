-- ===== src/Daemon/Sessions.antt =====
-- crates/daemon/src/session.rs: what `spawn_server`, `spawn_client` and `ChannelSink` set up, and the
-- daemon over the requests that start and stop its server, on Windows: every session that
-- `start_server` of crates/daemon/src/app.rs spawns shares the platform's one `WindowsCapture`.
-- Sessions are numbered, and a sink is known by its session.
pub mod Deaf
use my_deskflow.Prelude.{
  ℕ, ◌+◌, String, Bool, true, false, Option, none, some, List, [], ◌∷◌, ◌++◌, ltb, length,
  if◌then◌else◌,
}
use my_deskflow.Prelude.Int.{ℤ, pos}
use my_deskflow.Core.Error.{Error, Result, ok, err}
use my_deskflow.Core.Screen.{ScreenInfo, ScreenLayout}
use my_deskflow.Core.Event.{InputEvent}
use my_deskflow.Core.Config.{Config}
use my_deskflow.Routing.Edge.{new}
use my_deskflow.Routing.Session.{Server}
use my_deskflow.Platform.Screens.{max_ℤ}
use my_deskflow.Platform.WindowsCapture.Lifecycle.{WindowsCapture, Event}
use my_deskflow.Platform.WindowsCapture.Lifecycle as Capture
use my_deskflow.Daemon.Lifecycle.{DaemonState, Bound, start_server, stop_server, emergency_stop}

-- `local_screen_info().unwrap_or(…)`.
abbrev pub screen_or_default : Result Error ScreenInfo → ScreenInfo
screen_or_default (ok screen) = screen
screen_or_default (err e) = record { id = 0; name = "local"; width = pos 1920; height = pos 1080 }

-- The state that the tasks of a new server session share.
unfoldable pub server_state : Result Error ScreenInfo → Config → Server
server_state info config =
    let local = screen_or_default info in
    record {
      edge = new local.id (max_ℤ (pos 1) local.width) (max_ℤ (pos 1) local.height) config.layout;
      peers = [];
      last_mouse = none;
      heartbeat_interval_ms = config.network.heartbeat_interval_ms;
    }

-- The tasks of a session, in the order in which they are spawned.
pub data SessionTask : Type 0 where
  poll_clipboard start_capture drain_capture : SessionTask
  handle_peer_events_server handle_peer_events_client : SessionTask

abbrev pub clipboard_task : Config → List SessionTask
clipboard_task config = if config.clipboard.enabled then poll_clipboard ∷ [] else []

unfoldable pub spawn_server_tasks : Config → List SessionTask
spawn_server_tasks config =
    clipboard_task config ++ (start_capture ∷ drain_capture ∷ handle_peer_events_server ∷ [])

unfoldable pub spawn_client_tasks : Config → List SessionTask
spawn_client_tasks config = clipboard_task config ++ (handle_peer_events_client ∷ [])

-- `mpsc::channel::<InputEvent>(4096)`, and `ChannelSink::send`, which drops what has no room.
abbrev pub sink_bound : ℕ
sink_bound = 4096

unfoldable pub sink_send : List InputEvent → InputEvent → List InputEvent
sink_send queued event = if ltb (length queued) sink_bound then queued ++ (event ∷ []) else queued

-- The daemon, the platform's capture, and how many sessions were spawned.
pub record Host : Type 0 where
  pub daemon : DaemonState
  pub capture : WindowsCapture
  pub sessions : ℕ

-- A request of crates/daemon/src/ipc_server.rs about the server, with what `Server::bind` gives for
-- it, or a step of a thread of the capture. `start_capture` runs before the next request is served.
pub data Input : Type 0 where
  start : Result Error Bound → Input
  stop emergency : Input
  turn : Event → Input

-- `spawn_server`, by what it does to the capture, whose threads can be spawned.
abbrev pub spawn_server : Host → Host
spawn_server h = record h {
  capture = Capture.step h.capture (Event.started h.sessions true true);
  sessions = h.sessions + 1;
}

-- `start_server` up to the session: the state of the daemon and its result.
start_with : DaemonState × Result Error Bound → Host → Host
start_with (d, err e) h = record h { daemon = d }
start_with (d, ok bound) h = spawn_server (record h { daemon = d })

unfoldable pub serve : Host → Input → Host
unfolding start_with start_server stop_server emergency_stop
serve h (start bound) = start_with (start_server h.daemon bound) h
serve h stop = record h { daemon = (stop_server h.daemon).0 }
serve h emergency = record h { daemon = emergency_stop h.daemon }
serve h (turn e) = record h { capture = Capture.step h.capture e }

unfoldable pub serve_all : Host → List Input → Host
unfolding serve
serve_all h [] = h
serve_all h (i ∷ is) = serve_all (serve h i) is
