-- ===== src/Gui/Supervisor.antt =====
-- crates/gui/src/daemon.rs: the daemon as a child process, and where its binary is found. What the
-- system answers in a call is a parameter; a process is known by its number.
pub mod Ownership
pub mod Throttle
pub mod Search
use my_deskflow.Prelude.{
  ℕ, ◌-◌, ◌/◌, String, Bool, true, false, not, ◌&&◌, ◌||◌, Option, none, some, List, [], ◌∷◌, ltb,
  ◌==◌, if◌then◌else◌,
}
use my_deskflow.Core.Error.{Result, ok, err}

pub record DaemonSupervisor : Type 0 where
  pub child : Option ℕ
  pub binary : Option String
  pub last_launch_attempt : Option ℕ  -- in milliseconds

-- What a call meets: the clock, whether `try_wait` fails, and what a spawn would give.
pub record Moment : Type 0 where
  pub now : ℕ
  pub wait_fails : Bool
  pub spawned : Result String ℕ

-- The daemon processes that the supervisor started and that live, and the supervisor.
pub record World : Type 0 where
  pub alive : List ℕ
  pub supervisor : DaemonSupervisor

abbrev pub is_alive : ℕ → List ℕ → Bool
is_alive pid [] = false
is_alive pid (p ∷ ps) = p == pid || is_alive pid ps

abbrev pub remove_process : ℕ → List ℕ → List ℕ
remove_process pid [] = []
remove_process pid (p ∷ ps) =
    let rest = remove_process pid ps in if p == pid then rest else p ∷ rest

abbrev pub probe : Moment → List ℕ → Option ℕ → Bool
probe m alive none = false
probe m alive (some pid) = not m.wait_fails && is_alive pid alive

unfoldable pub is_running : Moment → World → Bool
is_running m w = probe m w.alive w.supervisor.child

abbrev pub launch : Result String ℕ → World → World × Result String (Unit {0})
launch (err e) w = (w, err e)
launch (ok pid) w = (
  record w { alive = pid ∷ w.alive; supervisor = record w.supervisor { child = some pid } },
  ok tt,
)

abbrev pub launch_from : Moment → World → Option String → World × Result String (Unit {0})
launch_from m w none =
    (w, err "daemon binary not found — install InputSync or run from a build output dir")
launch_from m w (some bin) = launch m.spawned w

unfoldable pub ensure_running : Moment → World → World × Result String (Unit {0})
unfolding is_running
ensure_running m w =
    if is_running m w
    then (w, ok tt)
    else launch_from m
        (record w { supervisor = record w.supervisor { last_launch_attempt = some m.now } })
        w.supervisor.binary

abbrev pub kill : Option ℕ → List ℕ → List ℕ
kill none alive = alive
kill (some pid) alive = remove_process pid alive

unfoldable pub stop : World → World
stop w = record {
  alive = kill w.supervisor.child w.alive;
  supervisor = record w.supervisor { child = none };
}

unfoldable pub restart : Moment → World → World × Result String (Unit {0})
unfolding stop ensure_running
restart m w = ensure_running m (stop w)

-- `last.elapsed().as_secs() < cooldown_secs`.
abbrev pub too_soon : ℕ → ℕ → Option ℕ → Bool
too_soon now cooldown_secs none = false
too_soon now cooldown_secs (some last) = ltb ((now - last) / 1000) cooldown_secs

unfoldable pub ensure_running_throttled : ℕ → Moment → World → World × Result String (Unit {0})
unfolding is_running ensure_running
ensure_running_throttled cooldown_secs m w =
    if is_running m w
    then (w, ok tt)
    else if too_soon m.now cooldown_secs w.supervisor.last_launch_attempt
    then (w, ok tt)
    else ensure_running m w

-- What the file system and the tool `which` answer in `find_daemon_binary`.
pub record Places : Type 0 where
  pub is_file : String → Bool
  pub sibling : Option String  -- `daemon_filename` beside the running executable
  pub found_on_path : Option String  -- the first line of `which`, trimmed, unless it is empty

-- `well_known_paths` on Unix.
abbrev pub well_known_paths : List String
well_known_paths = "/usr/bin/inputsync-daemon" ∷ "/usr/local/bin/inputsync-daemon" ∷ []

abbrev pub file_at : Places → Option String → Option String
file_at places none = none
file_at places (some p) = if places.is_file p then some p else none

abbrev pub or_else : Option String → Option String → Option String
or_else none later = later
or_else (some p) later = some p

unfoldable pub first_file : Places → List String → Option String
first_file places [] = none
first_file places (p ∷ ps) =
    let later = first_file places ps in if places.is_file p then some p else later

-- `lookup_on_path`, from the first line on.
abbrev pub lookup_on_path : Places → Option String
lookup_on_path places = file_at places places.found_on_path

unfoldable pub find_daemon_binary : Places → Option String
unfolding first_file
find_daemon_binary places =
    or_else (first_file places well_known_paths)
      (or_else (file_at places places.sibling) (lookup_on_path places))
