-- ===== src/Daemon/Startup/Roles.antt =====
-- How the daemon of crates/daemon/src/app.rs starts in its roles.
use my_deskflow.Prelude.{◌≡◌, refl, arith, none, [], String}
use my_deskflow.Prelude.Bytes.{Bytes, to_ascii_lowercase, eq_bytes, eq_bytes_iff}
use my_deskflow.Core.Error.{Result, ok}
use my_deskflow.Core.Screen.{PeerId}
use my_deskflow.Core.Config.{Config, ServerRole, server, client}
use my_deskflow.Daemon.Lifecycle.Coherence.{IsCoherent}
use my_deskflow.Daemon.Startup.{
  RunArgs, configure, role_for, parse_role, make_controller, set_up_role, server_name, client_name,
}

-- No option on the command line.
abbrev pub no_args : RunArgs
no_args = record {
  role_override = none;
  listen_override = none;
  connect_override = none;
  pinned_fingerprints = [];
}

pub configure-no_args : (c : Config) → configure no_args c ≡ ok c
unfolding configure role_for
configure-no_args c = refl

-- A daemon that has set up its role listens to nobody and has bound nothing.
pub set_up_role-IsCoherent :
    (id : PeerId) (fingerprint : Bytes) (c : Config) (role : ServerRole)
    → IsCoherent ((set_up_role id fingerprint c role).0.server, [])
unfolding set_up_role
set_up_role-IsCoherent id fingerprint c server = record {
  listens = refl;
  captures = λ h. ground arith;
  bound_once = refl;
}
set_up_role-IsCoherent id fingerprint c client = record {
  listens = refl;
  captures = λ h. ground arith;
  bound_once = refl;
}

-- The role that a text on the command line asks for.
abbrev pub Asks : Bytes → ServerRole → Type 0
Asks text server = to_ascii_lowercase text ≡ server_name
Asks text client = to_ascii_lowercase text ≡ client_name

-- A text is taken for a role exactly if it is the role's name, but for the case of its letters.
pub parse_role-Asks :
    (text : Bytes) (role : ServerRole)
    → (parse_role text ≡ ok role → Asks text role) × (Asks text role → parse_role text ≡ ok role)
unfolding parse_role eq_bytes
parse_role-Asks text server =
    let law = eq_bytes_iff (to_ascii_lowercase text) server_name in
    (λ h. ground (arith, law.0), λ h. rw (law.1 h) refl)
parse_role-Asks text client =
    let law = eq_bytes_iff (to_ascii_lowercase text) client_name in
    (λ h. ground (arith, law.0), λ h. rw h refl)

-- A controller is made where the endpoint can be bound.
pub make_controller-ok :
    (role : ServerRole) (endpoint : Result String (Unit {0}))
    → endpoint ≡ ok tt
    → make_controller role endpoint ≡ ok tt
unfolding make_controller
make_controller-ok server endpoint bound = refl
make_controller-ok client endpoint bound = rw bound refl
