-- ===== src/Tests/Supervisor.antt =====
-- The supervisor of crates/gui at concrete inputs.
use my_deskflow.Prelude.{ℕ, ◌≡◌, refl, false, none, some, List, [], ◌∷◌}
use my_deskflow.Core.Error.{ok, err}
use my_deskflow.Gui.Supervisor.{Moment, World, ensure_running_throttled}
use my_deskflow.Gui.Supervisor.Ownership.{Input, ensure, restarted, throttled, died, IsOwned}
use my_deskflow.Gui.Supervisor.Throttle.{Frame, attempts}

-- A process can be spawned, with its number, or not.
abbrev at : ℕ → ℕ → Moment
at time pid = record { now = time; wait_fails = false; spawned = ok pid }

abbrev failing : ℕ → Moment
failing time = record { now = time; wait_fails = false; spawned = err "no such file" }

abbrev fresh : World
fresh = record {
  alive = [];
  supervisor = record {
    child = none;
    binary = some "/usr/bin/inputsync-daemon";
    last_launch_attempt = none;
  };
}

abbrev session : List Input
session = ensure (at 1000 41) ∷ restarted (at 2000 42) ∷ died 42 ∷ throttled 3 (at 6000 43) ∷ []

fresh-IsOwned : IsOwned fresh
unfolding IsOwned
fresh-IsOwned = refl

abbrev frames : List Frame
frames =
    record { alive = []; moment = failing 1000 }
    ∷ record { alive = []; moment = failing 1500 }
    ∷ record { alive = []; moment = at 4200 7 }
    ∷ record { alive = 7 ∷ []; moment = at 4700 8 }
    ∷ []

-- The second frame comes too soon, and the last one finds the daemon running.
attempts_of_frames : attempts 3 fresh frames ≡ 1000 ∷ 4200 ∷ []
unfolding attempts ensure_running_throttled
attempts_of_frames = refl
