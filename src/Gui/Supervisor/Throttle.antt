-- ===== src/Gui/Supervisor/Throttle.antt =====
-- How often the supervisor of crates/gui/src/daemon.rs launches the daemon by itself.
use my_deskflow.Prelude.{
  ℕ, ◌-◌, ◌/◌, ◌≤◌, ◌≡◌, ◌⊎◌, false, Option, none, some, List, [], ◌∷◌, ◌==◌, ◌++◌, if◌then◌else◌,
}
use my_deskflow.Gui.Supervisor.{Moment, World, too_soon, ensure_running_throttled}

-- A frame of the window: daemons may have ended before it, and it calls at a moment.
pub record Frame : Type 0 where
  pub alive : List ℕ
  pub moment : Moment

abbrev pub frame_world : Frame → World → World
frame_world f w = record w { alive = f.alive }

-- The attempt that a call made, as the supervisor notes it.
abbrev pub noted : Option ℕ → Option ℕ → List ℕ
noted before none = []
noted none (some t) = t ∷ []
noted (some last) (some t) = if last == t then [] else t ∷ []

-- The attempts of the frames.
unfoldable pub attempts : ℕ → World → List Frame → List ℕ
attempts cooldown w [] = []
attempts cooldown w (f ∷ fs) =
    let after = (ensure_running_throttled cooldown f.moment (frame_world f w)).0 in
    noted w.supervisor.last_launch_attempt after.supervisor.last_launch_attempt
    ++ attempts cooldown after fs

-- Each is the cooldown behind the one before, in whole seconds.
abbrev pub IsSpaced : ℕ → Option ℕ → List ℕ → Type 0
IsSpaced cooldown last [] = Unit {0}
IsSpaced cooldown none (t ∷ ts) = IsSpaced cooldown (some t) ts
IsSpaced cooldown (some last) (t ∷ ts) =
    (cooldown ≤ (t - last) / 1000) × IsSpaced cooldown (some t) ts

-- A call notes nothing, or its own moment when the last attempt is far enough back.
Paced : ℕ → Moment → World → World → Type 0
Paced cooldown m w after =
    (after.supervisor.last_launch_attempt ≡ w.supervisor.last_launch_attempt)
    ⊎ ((after.supervisor.last_launch_attempt ≡ some m.now)
        × (too_soon m.now cooldown w.supervisor.last_launch_attempt ≡ false))
