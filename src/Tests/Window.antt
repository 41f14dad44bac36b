-- ===== src/Tests/Window.antt =====
-- The window of crates/gui at concrete inputs, on the disk and with the daemon of the other tests.
use my_deskflow.Prelude.{ℕ, ◌≡◌, ◌↔◌, refl, String, true, false, none, some, List, [], ◌∷◌, inr}
use my_deskflow.Prelude.Bytes.{to_ascii_lowercase}
use my_deskflow.Core.Error.{Error, ok, err}
use my_deskflow.Core.Config.{client}
use my_deskflow.Daemon.Requests.{StatusReply, dial, ClientConfig, handle_request}
use my_deskflow.Daemon.Startup.{base_config}
use my_deskflow.Network.Tls.{accept_server}
use my_deskflow.Gui.Actions.{Action, SharedState, request_of}
use my_deskflow.Gui.Supervisor.{Moment, stop, ensure_running_throttled}
use my_deskflow.Gui.Supervisor.Ownership.{IsOwned}
use my_deskflow.Gui.Roles.{InputSyncApp}
use my_deskflow.Gui.Window.{
  Window, Clicks, Frame, Input, frame, polled, died, above_panels, update, run,
}
use my_deskflow.Gui.Window.Allowed.{Shows, IsFair, update-IsFair}
use my_deskflow.Gui.Window.Owned.{run-Owned}
use my_deskflow.Gui.Window.Pinned.{connect_click-pins}
use my_deskflow.Tests.Disk.{disk, roles, empty, in_role}
use my_deskflow.Tests.Surroundings.{here, controlled, same}

-- A client that is told of no peer.
abbrev seen : StatusReply
seen = record {
  version = "0.1.0";
  uptime_secs = 60;
  role = client;
  local_fingerprint = 70 ∷ [];
  connected_peers = [];
  capturing = false;
  listening = false;
  listen_addr = none;
}

abbrev shared : SharedState
shared = record { status_seen = some seen; error = none; last_action = none; action_seq = 0 }

-- The daemon that the window launched a second ago.
abbrev app : InputSyncApp
app = record {
  processes = record {
    alive = 41 ∷ [];
    supervisor = record { child = some 41; binary = some "daemon"; last_launch_attempt = some 1 };
  };
  role_decided = true;
  supervisor_error = none;
}

abbrev window : Window
window = record { app = app; shared = shared; poll_started = true; addr_input = []; pin_input = [] }

abbrev idle : Clicks
idle = record {
  change_role = false;
  server_clicked = false;
  client_clicked = false;
  retry_clicked = false;
  restart_clicked = false;
  connect_clicked = false;
  disconnect_clicked = false;
  run_or_stop_clicked = false;
  copy_clicked = false;
  addr_text = [];
  pin_text = [];
}

abbrev at : ℕ → ℕ → Moment
at time pid = record { now = time; wait_fails = false; spawned = ok pid }

abbrev shot : Clicks → Frame
shot c = record { above = at 2000 42; within = at 2000 43; now = 2000; clicks = c }

abbrev connecting_form : Clicks
connecting_form = record idle { connect_clicked = true; addr_text = 49 ∷ []; pin_text = 65 ∷ [] }

-- The daemon ends, is launched again, and the role is chosen anew.
abbrev session : List Input
session =
    died 41
    ∷ frame (shot idle)
    ∷ polled (err "no daemon")
    ∷ frame (shot (record idle { change_role = true; client_clicked = true }))
    ∷ []

show : Error → String
show e = "error"

run-Owned_example :
    IsOwned
      (run disk roles show (λ b. b) "c.toml" none "desk" (empty, window) session).1.app.processes
    × ((stop
          (run disk roles show
            (λ b. b)
            "c.toml"
            none
            "desk"
            (empty, window)
            session).1.app.processes).alive
        ≡ [])
unfolding IsOwned
run-Owned_example =
    run-Owned disk roles show (λ b. b) "c.toml" none "desk" (empty, window) session
      (tt, ((refl, refl), (tt, ((refl, refl), tt)))) (inr refl)

update-IsFair_example :
    IsFair disk roles show
      (λ b. b)
      "c.toml"
      none
      "desk"
      (above_panels disk roles show (λ b. b) "c.toml" none "desk" (shot connecting_form) window)
      (update disk roles show
        (λ b. b)
        "c.toml"
        none
        "desk"
        (shot connecting_form)
        empty
        window).dispatched
update-IsFair_example =
    update-IsFair disk roles show (λ b. b) "c.toml" none "desk" (shot connecting_form) empty window

shows :
    Shows
      (above_panels disk roles show (λ b. b) "c.toml" none "desk" (shot connecting_form) window)
      seen
unfolding above_panels ensure_running_throttled
shows = record { decided = refl; launches = refl; reached = refl; seen = refl }

connect_click-pins_example :
    (a : Action) × (c : ClientConfig) × ((update disk roles show
        (λ b. b)
        "c.toml"
        none
        "desk"
        (shot connecting_form)
        empty
        window).dispatched
      ≡ a ∷ [])
    × ((handle_request here (ok (9, none)) controlled [] (request_of a)).dispatched ≡ dial c ∷ [])
    × (c.server_addr ≡ "10.0.0.2:24800")
    × ((accept_server same c.trusted_fingerprints (97 ∷ []) [] [] ≡ ok tt)
        ↔ (to_ascii_lowercase (65 ∷ []) ≡ to_ascii_lowercase (97 ∷ [])))
unfolding controlled
connect_click-pins_example =
    connect_click-pins disk roles show "c.toml" none "desk" here (shot connecting_form) empty window
      seen (ok (9, none)) controlled [] "10.0.0.2:24800" (base_config 5 (in_role client)) same
      (97 ∷ []) [] [] (λ text. refl) shows refl refl refl refl refl refl refl refl
