-- ===== src/Tests/Surroundings.antt =====
-- The daemon behind its socket, its identity and its configuration at concrete inputs.
use my_deskflow.Prelude.{
  ℕ, ◌≡◌, ◌↔◌, ◌⊎◌, inr, refl, true, false, Option, none, some, List, [], ◌∷◌,
}
use text.Mathlib.TextEquality.{eq_iff}
use my_deskflow.Prelude.Bytes.{Bytes}
use my_deskflow.Core.Error.{Error, Result, ok, err, toml_de}
use my_deskflow.Core.Config.{server, client, load, save, default_config}
use my_deskflow.Network.Tls.{CertPaths, Hash, load_or_generate, accept_server}
use my_deskflow.Network.Tls.Pinning.{IsPinned, accept_server_iff}
use my_deskflow.Daemon.Main.{Host, run_daemon, running, main, print_fingerprint}
use my_deskflow.Daemon.Main.Fingerprint.{run-fingerprint}
use my_deskflow.Daemon.Requests
use my_deskflow.Daemon.Requests.{
  ClientConfig, Daemon, IpcRequest, get_status, update_config, connect, start_server_request,
  emergency_stop_request, StatusReply, IpcResponse, status, done, Dispatch, dial, Surroundings,
  handle_request,
}
use my_deskflow.Daemon.Requests.Serving.{serve, IsTruthful, serve-get_status}
use my_deskflow.Daemon.Requests.Dialing.{dispatched-update_config}
use my_deskflow.Daemon.Startup.{role_for, configure, set_up_role, start_up}
use my_deskflow.Daemon.Startup.Roles.{no_args, set_up_role-IsCoherent}
use my_deskflow.Gui.Supervisor.{Moment}
use my_deskflow.Gui.Roles.{InputSyncApp, apply_role_choice}
use my_deskflow.Gui.Roles.Chosen.{start_up-apply_role_choice, apply_role_choice-unreadable}
use my_deskflow.Tests.Disk.{disk, disk-FileLaws, Store, put, empty, roles, in_role, roles-ReadsBack}

-- A hash, which is its input here, and the two files of an identity.
abbrev pub same : Hash
same b = b

abbrev paths : CertPaths
paths = record { dir = "certs"; cert_path = "certs/cert.der"; key_path = "certs/key.der" }

abbrev pinned : List Bytes
pinned = (65 ∷ 66 ∷ []) ∷ []

-- "AB" is pinned, and the hash of the server's certificate is "ab".
accept_server_iff_example :
    (accept_server same pinned (97 ∷ 98 ∷ []) (1 ∷ []) (2 ∷ []) ≡ ok tt)
    ↔ ((pinned ≡ []) ⊎ IsPinned pinned (97 ∷ 98 ∷ []))
accept_server_iff_example = accept_server_iff same pinned (97 ∷ 98 ∷ []) (1 ∷ []) (2 ∷ [])

apart : paths.key_path ≡ paths.cert_path → ⊥
apart e = let h = (eq_iff paths.key_path paths.cert_path).1 e in cc

abbrev stored : Store
stored = put (put empty "certs/cert.der" (1 ∷ 2 ∷ [])) "certs/key.der" (3 ∷ [])

-- A machine that has no identity yet, and the same one later, when none can be made.
abbrev first_host : Host
first_host = record {
  default_path = ok "c.toml";
  parent = λ p. none;
  name = "desk";
  cert_dir = ok paths;
  generated = ok (1 ∷ 2 ∷ [], 3 ∷ []);
  id = 5;
  platform = ok tt;
  listener = ok tt;
  endpoint = ok tt;
}

abbrev later_host : Host
later_host = record first_host { generated = err "no entropy" }

run-fingerprint_example :
    (main disk roles same later_host none (run_daemon none none none [] true) stored
      ≡ ok (running (set_up_role 5 (1 ∷ 2 ∷ []) (default_config "desk") server) false, stored))
    × ((cert : Bytes) × (disk.read stored paths.cert_path ≡ ok cert)
        × (accept_server same ((1 ∷ 2 ∷ []) ∷ []) cert [] [] ≡ ok tt))
unfolding main print_fingerprint load_or_generate load configure role_for
run-fingerprint_example =
    run-fingerprint disk disk-FileLaws roles same first_host later_host empty stored paths
      (1 ∷ 2 ∷ []) none none "c.toml" (default_config "desk") (default_config "desk") none none none
      [] true [] [] apart refl refl refl refl refl refl refl refl refl

abbrev pub here : Surroundings
here = record {
  resolve = λ addr. ok "10.0.0.2:24800";
  trim = λ text. text;
  version = "0.1.0";
  uptime_secs = 60;
  show = λ e. "error";
  invalid_address = λ addr e. "invalid address";
}

abbrev serving : Daemon
unfolding set_up_role
serving = (set_up_role 5 (9 ∷ []) (in_role server) server).0

unfoldable pub controlled : Daemon
unfolding set_up_role
controlled = (set_up_role 5 (9 ∷ []) (in_role client) client).0

abbrev requests : List (Result Error (ℕ × Option ℕ) × IpcRequest)
requests =
    (ok (7, some 24800), start_server_request)
    ∷ (ok (8, none), emergency_stop_request)
    ∷ (ok (8, none), start_server_request)
    ∷ []

serve-get_status_example :
    (d' : Daemon) × (bound' : List ℕ) × (r : StatusReply) × (serve here serving [] requests
      ≡ some (d', bound'))
    × ((Requests.handle_request here (ok (9, none)) d' bound' get_status).response
        ≡ some (status r))
    × IsTruthful d' bound' r
unfolding set_up_role
serve-get_status_example =
    serve-get_status here serving [] requests (ok (9, none)) (tt, (tt, (tt, tt)))
      (set_up_role-IsCoherent 5 (9 ∷ []) (in_role server) server)

-- A client without a pin of its own is told to trust one; it dials as before.
dispatched-update_config_example :
    (handle_request here
      (ok (9, none))
      (handle_request here (ok (9, none)) controlled [] (update_config (in_role server))).daemon
      []
      (connect (49 ∷ []) none)).dispatched
    ≡ (handle_request here (ok (9, none)) controlled [] (connect (49 ∷ []) none)).dispatched
unfolding handle_request
dispatched-update_config_example =
    dispatched-update_config here (ok (9, none)) controlled [] (in_role server) (49 ∷ []) none

abbrev app : InputSyncApp
app = record {
  processes = record {
    alive = [];
    supervisor = record { child = none; binary = none; last_launch_attempt = none };
  };
  role_decided = false;
  supervisor_error = none;
}

abbrev now : Moment
now = record { now = 5; wait_fails = false; spawned = err "no binary" }

-- The first choice of a role, with no file there.
start_up-apply_role_choice_example :
    start_up disk roles no_args "c.toml" "other" 5
      (9 ∷ [])
      (ok tt)
      (apply_role_choice disk roles (λ e. "error") now "c.toml" none "desk" client empty app).0
    ≡ ok (set_up_role 5 (9 ∷ []) (in_role client) client)
unfolding load save
start_up-apply_role_choice_example =
    start_up-apply_role_choice disk disk-FileLaws roles (λ e. "error") now "c.toml" "desk" "other"
      none client empty (put empty "c.toml" (b'c' ∷ [])) app 5 (9 ∷ []) (default_config "desk")
      (ok tt) (inr (_, refl, refl)) (roles-ReadsBack client) refl refl

-- An empty file, which is no configuration.
abbrev broken : Store
broken = put empty "c.toml" []

apply_role_choice-unreadable_example :
    load disk roles
      (apply_role_choice disk roles (λ e. "error") now "c.toml" none "desk" client broken app).0
      "c.toml"
    ≡ ok (in_role client)
unfolding load save
apply_role_choice-unreadable_example =
    apply_role_choice-unreadable disk disk-FileLaws roles (λ e. "error") now "c.toml" "desk" none
      client broken (put broken "c.toml" (b'c' ∷ [])) app (toml_de "empty") refl
      (roles-ReadsBack client) refl
