-- ===== src/Gui/Actions.antt =====
-- crates/gui/src/main.rs: what the window asks of the daemon, what it makes of the answers, and
-- which panel it shows. The widgets are not modelled.
use my_deskflow.Prelude.{
  ℕ, ◌+◌, ◌/◌, ◌%◌, ◌^◌, ◌≡◌, ◌↔◌, String, Bool, true, false, Option, none, some, List, [], ◌∷◌,
  ltb, if◌then◌else◌, arith, inl, inr,
}
use my_deskflow.Prelude.Bytes.{Bytes}
use my_deskflow.Core.Error.{Error, Result, ok, err, Result-cases}
use my_deskflow.Core.Config.{ServerRole, client, server}
use my_deskflow.Daemon.Lifecycle.{Bound, start_server}
use my_deskflow.Daemon.Requests.{
  Daemon, IpcRequest, connect, disconnect, start_server_request, stop_server_request, IpcResponse,
  StatusReply, status, done, failure, Surroundings, handle_request,
}

pub data Action : Type 0 where
  connect_to : Bytes → Option Bytes → Action
  disconnect_peer : Action
  run_server : Action  -- `StartServer`
  stop_running : Action  -- `StopServer`

-- The request of `dispatch_action`.
unfoldable pub request_of : Action → IpcRequest
request_of (connect_to addr fingerprint) = connect addr fingerprint
request_of disconnect_peer = disconnect ""
request_of run_server = start_server_request
request_of stop_running = stop_server_request

pub label : Action → String
label (connect_to addr fingerprint) = "Connect"
label disconnect_peer = "Disconnect"
label run_server = "Start server"
label stop_running = "Stop server"

-- `ActionResult`; the message is what it is made of.
pub data ActionResult : Type 0 where
  accepted : String → ActionResult
  refused : String → ActionResult
  unexpected : IpcResponse → ActionResult
  copied : ActionResult  -- "Fingerprint copied to clipboard."
  failed : String → String → ActionResult  -- the label, and the error

abbrev pub is_ok : ActionResult → Bool
is_ok (accepted label) = true
is_ok copied = true
is_ok _ = false

unfoldable pub result_of : String → Result String IpcResponse → ActionResult
result_of name (ok done) = accepted name
result_of name (ok (failure message)) = refused message
result_of name (ok other) = unexpected other
result_of name (err e) = failed name e

pub record SharedState : Type 0 where
  pub status_seen : Option StatusReply
  pub error : Option String
  pub last_action : Option (ActionResult × ℕ)
  pub action_seq : ℕ  -- a u64

-- The end of `dispatch_action`, at a time.
unfoldable pub note_action : ℕ → ActionResult → SharedState → SharedState
note_action now res s = record s {
  last_action = some (res, now);
  action_seq = (s.action_seq + 1) % 2 ^ 64;
}

-- `poll_once`, behind the request.
unfoldable pub status_of : Result String IpcResponse → Result String StatusReply
status_of (ok (status s)) = ok s
status_of (ok other) = err "unexpected response"
status_of (err e) = err e

-- One round of `start_poll_loop`.
unfoldable pub note_poll : Result String StatusReply → SharedState → SharedState
note_poll (ok reply) s = record s { status_seen = some reply; error = none }
note_poll (err e) s = record s { error = some e }

pub data Panel : Type 0 where
  role_picker : Panel
  launch_error : String → Panel
  daemon_unreachable : String → Panel
  connecting : Panel
  client_panel server_panel : StatusReply → Panel

abbrev pub role_panel : ServerRole → StatusReply → Panel
role_panel client s = client_panel s
role_panel server s = server_panel s

abbrev pub panel_for : Option String → Option StatusReply → Panel
panel_for (some e) seen = daemon_unreachable e
panel_for none none = connecting
panel_for none (some s) = role_panel s.role s

abbrev pub panel_unless : Option String → SharedState → Panel
panel_unless (some e) s = launch_error e
panel_unless none s = panel_for s.error s.status_seen

-- Which panel `update` draws.
unfoldable pub panel : Bool → Option String → SharedState → Panel
panel role_decided supervisor_error s =
    if role_decided then panel_unless supervisor_error s else role_picker

-- `humantime`, by its numbers: hours, minutes and seconds, without leading ones that are zero.
unfoldable pub humantime : ℕ → List ℕ
humantime secs =
    let h = secs / 3600 in
    let m = secs % 3600 / 60 in
    let s = secs % 60 in if ltb 0 h then h ∷ m ∷ s ∷ [] else if ltb 0 m then m ∷ s ∷ [] else s ∷ []

-- The answer of the daemon, as the socket gives it.
abbrev pub answered : Option IpcResponse → Result String IpcResponse
answered none = err "ipc peer disconnected"
answered (some r) = ok r

both : {r : Result Error Bound} {b : Bound} {x : Error} → r ≡ ok b → r ≡ err x → ⊥
both h k = cc

-- The button that starts the server is shown as accepted exactly if the daemon had no server
-- before, can be one, and the endpoint was bound; the daemon listens then, and else is unchanged.
pub run_server-accepted :
    (e : Surroundings) (binding : Result Error Bound) (d : Daemon) (bound : List ℕ)
    → let after = handle_request e binding d bound (request_of run_server) in
      let shown = is_ok (result_of (label run_server) (answered after.response)) in
      ((shown ≡ true) ↔ (
        (d.server.server_controller ≡ none)
        × (d.server.has_server_factory ≡ true)
        × ((b : Bound) × (binding ≡ ok b))))
      × (shown ≡ true → after.daemon.server.listening ≡ true)
      × (shown ≡ false → after.daemon ≡ d)
unfolding request_of handle_request start_server result_of
run_server-accepted e binding d bound = elim (Result-cases binding) [
  | inl (b, bound_to) ↦ (
    (λ h. (ground arith, ground arith, (b, bound_to)), λ h. ground arith),
    λ h. ground arith,
    λ h. ground arith,
  )
  | inr (x, refused_by) ↦ (
    (λ h. absurd (ground arith), λ h. absurd (both h.2.1 refused_by)),
    λ h. ground arith,
    λ h. ground arith,
  )
]
