-- ===== src/Daemon/Requests/Serving.antt =====
-- What crates/daemon/src/ipc_server.rs reports after any requests.
use my_deskflow.Prelude.{
  ℕ, ◌≡◌, refl, true, Option, none, some, List, [], ◌∷◌, All, if_ind, Option-cases, Bool-cases, inl,
  inr, String,
}
use my_deskflow.Prelude.Bytes.{Bytes}
use my_deskflow.Core.Error.{Error, Result, Result-cases}
use my_deskflow.Daemon.Lifecycle.{Bound, handle_request, start, stop, emergency}
use my_deskflow.Daemon.Lifecycle.Coherence.{
  IsCoherent, is_some, endpoints, handle_request-IsCoherent,
}
use my_deskflow.Daemon.Requests
use my_deskflow.Daemon.Requests.{
  Daemon, IpcRequest, get_status, get_config, update_config, connect, disconnect,
  start_server_request, stop_server_request, emergency_stop_request, subscribe_events, get_logs,
  shutdown, StatusReply, IpcResponse, status, Outcome, Surroundings, handle_connect, dispatch_dial,
}

-- The requests of a run, each with what binding an endpoint would give then; nothing is left where
-- a request ends the process.
unfoldable pub serve :
    Surroundings
    → Daemon
    → List ℕ
    → List (Result Error Bound × IpcRequest)
    → Option (Daemon × List ℕ)
serve e d bound [] = some (d, bound)
serve e d bound ((binding, r) ∷ rs) =
    let after = Requests.handle_request e binding d bound r in
    elim after.response [ none ↦ none | some reply ↦ serve e after.daemon after.bound rs ]

-- Every request but the one to shut down is answered.
abbrev pub IsAnswerable : Result Error Bound × IpcRequest → Type 0
IsAnswerable (binding, shutdown) = ⊥
IsAnswerable _ = Unit {0}

abbrev Answers : Outcome → Type 0
Answers o = (r : IpcResponse) × (o.response ≡ some r)

abbrev Keeps : Daemon → List ℕ → Outcome → Type 0
Keeps d bound o = IsCoherent (d.server, bound) → IsCoherent (o.daemon.server, o.bound)

dispatch_dial-Keeps :
    (e : Surroundings) (d : Daemon) (bound : List ℕ) (target : String) (fp : Option Bytes)
    → Keeps d bound (dispatch_dial e d bound target fp)
unfolding dispatch_dial
dispatch_dial-Keeps e d bound target fp c = elim (Option-cases d.client_base) [
  | inl missing ↦ rw missing c
  | inr (cfg, here) ↦ elim (Bool-cases d.has_client_controller) [
    | inl yes_client ↦ rw (here, yes_client) c
    | inr no_client ↦ rw (here, no_client) c
  ]
]

handle_connect-Keeps :
    (e : Surroundings) (d : Daemon) (bound : List ℕ) (addr : Bytes) (fp : Option Bytes)
    → Keeps d bound (handle_connect e d bound addr fp)
unfolding handle_connect
handle_connect-Keeps e d bound addr fp c = elim (Result-cases (e.resolve addr)) [
  | inl (target, found) ↦ rw (found, handle_connect) (dispatch_dial-Keeps e d bound target fp c)
  | inr (x, bad) ↦ rw (bad, handle_connect) c
]

handle_request-Keeps :
    (e : Surroundings) (binding : Result Error Bound) (d : Daemon) (bound : List ℕ) (r : IpcRequest)
    → Keeps d bound (Requests.handle_request e binding d bound r)
unfolding Requests.handle_request handle_request
handle_request-Keeps e binding d bound get_status c = c
handle_request-Keeps e binding d bound get_config c = c
handle_request-Keeps e binding d bound (update_config new) c = c
handle_request-Keeps e binding d bound (connect addr fp) c =
    handle_connect-Keeps e d bound addr fp c
handle_request-Keeps e binding d bound (disconnect peer) c =
    elim (Bool-cases d.has_client_controller) [
      | inl yes_client ↦ rw yes_client c
      | inr no_client ↦ rw no_client c
    ]
handle_request-Keeps e binding d bound start_server_request c =
    handle_request-IsCoherent (d.server, bound) (start binding) c
handle_request-Keeps e binding d bound stop_server_request c =
    handle_request-IsCoherent (d.server, bound) stop c
handle_request-Keeps e binding d bound emergency_stop_request c =
    handle_request-IsCoherent (d.server, bound) emergency c
handle_request-Keeps e binding d bound subscribe_events c = c
handle_request-Keeps e binding d bound (get_logs tail) c = c
handle_request-Keeps e binding d bound shutdown c = c

dispatch_dial-Answers :
    (e : Surroundings) (d : Daemon) (bound : List ℕ) (target : String) (fp : Option Bytes)
    → Answers (dispatch_dial e d bound target fp)
unfolding dispatch_dial
dispatch_dial-Answers e d bound target fp = elim (Option-cases d.client_base) [
  | inl missing ↦ rw missing (_, refl)
  | inr (cfg, here) ↦
      rw here (if_ind Answers d.has_client_controller (λ c. (_, refl)) (λ c. (_, refl)))
]

handle_request-Answers :
    (e : Surroundings) (binding : Result Error Bound) (d : Daemon) (bound : List ℕ) (r : IpcRequest)
    → IsAnswerable (binding, r)
    → Answers (Requests.handle_request e binding d bound r)
unfolding Requests.handle_request handle_connect
handle_request-Answers e binding d bound get_status h = (_, refl)
handle_request-Answers e binding d bound get_config h = (_, refl)
handle_request-Answers e binding d bound (update_config new) h = (_, refl)
handle_request-Answers e binding d bound (connect addr fp) h =
    elim (Result-cases (e.resolve addr)) [
      | inl (target, found) ↦ rw (found, handle_connect) (dispatch_dial-Answers e d bound target fp)
      | inr (x, bad) ↦ rw (bad, handle_connect) (_, refl)
    ]
handle_request-Answers e binding d bound (disconnect peer) h =
    if_ind Answers d.has_client_controller (λ c. (_, refl)) (λ c. (_, refl))
handle_request-Answers e binding d bound start_server_request h = (_, refl)
handle_request-Answers e binding d bound stop_server_request h = (_, refl)
handle_request-Answers e binding d bound emergency_stop_request h = (_, refl)
handle_request-Answers e binding d bound subscribe_events h = (_, refl)
handle_request-Answers e binding d bound (get_logs tail) h = (_, refl)
handle_request-Answers e binding d bound shutdown h = absurd h

serve-IsCoherent :
    (e : Surroundings) (d : Daemon) (bound : List ℕ) (rs : List (Result Error Bound × IpcRequest))
    → All IsAnswerable rs
    → IsCoherent (d.server, bound)
    → (d' : Daemon) × (bound' : List ℕ) × (serve e d bound rs ≡ some (d', bound'))
      × IsCoherent (d'.server, bound')
unfolding serve
serve-IsCoherent e d bound [] all c = (d, bound, refl, c)
serve-IsCoherent e d bound ((binding, r) ∷ rs) all c =
    let after = Requests.handle_request e binding d bound r in
    let (reply, answered) = handle_request-Answers e binding d bound r all.0 in
    let (d', bound', served, c') =
      serve-IsCoherent e after.daemon after.bound rs all.1
        (handle_request-Keeps e binding d bound r c) in
    (d', bound', rw (answered, serve) served, c')

-- What a status says of the server is true.
pub record IsTruthful (d : Daemon) (bound : List ℕ) (r : StatusReply) : Type 0 where
  pub listens : r.listening ≡ is_some d.server.server_controller
  pub captures : r.capturing ≡ true → r.listening ≡ true
  pub one_endpoint : bound ≡ endpoints d.server.server_controller

-- After any run of requests other than shutdown to a daemon that was coherent at first, the
-- process still runs, a request for the status is answered, and the answer says that the daemon
-- listens exactly if it keeps a controller, whose endpoint is then the one that is bound, and that
-- it captures only if it says that it listens.
pub serve-get_status :
    (e : Surroundings) (d : Daemon) (bound : List ℕ) (rs : List (Result Error Bound × IpcRequest))
    (binding : Result Error Bound)
    → All IsAnswerable rs
    → IsCoherent (d.server, bound)
    → (d' : Daemon) × (bound' : List ℕ) × (r : StatusReply) × (serve e d bound rs
        ≡ some (d', bound'))
      × ((Requests.handle_request e binding d' bound' get_status).response ≡ some (status r))
      × IsTruthful d' bound' r
unfolding Requests.handle_request
serve-get_status e d bound rs binding all c =
    let (d', bound', served, after) = serve-IsCoherent e d bound rs all c in
    (
      d',
      bound',
      _,
      served,
      refl,
      record {
        listens = after.listens;
        captures = after.captures;
        one_endpoint = after.bound_once;
      },
    )
