-- ===== src/Daemon/Lifecycle/Coherence.antt =====
-- Runs of the requests of crates/daemon/src/ipc_server.rs that start and stop the server.
use my_deskflow.Prelude.{ℕ, ◌≡◌, refl, arith, Bool, true, false, Option, none, some, List, [], ◌∷◌}
use my_deskflow.Daemon.Lifecycle.{
  DaemonState, IpcRequest, start, stop, emergency, start_server, stop_server, emergency_stop,
  handle_request, handle_requests,
}

abbrev pub is_some : Option ℕ → Bool
is_some none = false
is_some (some c) = true

abbrev pub endpoints : Option ℕ → List ℕ
endpoints none = []
endpoints (some c) = c ∷ []

-- Listening with a controller or neither; capturing only while listening; the one endpoint that is
-- bound is the controller's.
pub record IsCoherent (d : DaemonState × List ℕ) : Type 0 where
  pub listens : d.0.listening ≡ is_some d.0.server_controller
  pub captures : d.0.capturing ≡ true → d.0.listening ≡ true
  pub bound_once : d.1 ≡ endpoints d.0.server_controller

pub handle_request-IsCoherent :
    (d : DaemonState × List ℕ) (r : IpcRequest) → IsCoherent d → IsCoherent (handle_request d r)
unfolding handle_request start_server stop_server emergency_stop
handle_request-IsCoherent (s, bound) (start b) c =
    let l = c.listens in
    let k = c.captures in
    let e = c.bound_once in
    record { listens = ground arith; captures = λ h. ground arith; bound_once = ground arith }
handle_request-IsCoherent (s, bound) stop c =
    let e = c.bound_once in
    record { listens = refl; captures = λ h. ground arith; bound_once = ground arith }
handle_request-IsCoherent (s, bound) emergency c = record {
  listens = c.listens;
  captures = λ h. ground arith;
  bound_once = c.bound_once;
}

-- Over every run of requests to start, to stop and to stop in an emergency, the daemon listens
-- exactly while it keeps a controller, reports capturing only while it listens, and has bound no
-- endpoint but the controller's, if it was so at first.
pub handle_requests-IsCoherent :
    (d : DaemonState × List ℕ) (rs : List IpcRequest)
    → IsCoherent d
    → IsCoherent (handle_requests d rs)
unfolding handle_requests
handle_requests-IsCoherent d [] c = c
handle_requests-IsCoherent d (r ∷ rs) c =
    handle_requests-IsCoherent (handle_request d r) rs (handle_request-IsCoherent d r c)

-- A second stop closes nothing and changes nothing.
pub stop_server-stop_server :
    (s : DaemonState) → stop_server (stop_server s).0 ≡ ((stop_server s).0, none)
unfolding stop_server
stop_server-stop_server s = refl
