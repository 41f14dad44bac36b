-- ===== src/Gui/Supervisor/Ownership.antt =====
-- How many daemons the supervisor of crates/gui/src/daemon.rs has running.
use my_deskflow.Prelude.{
  ℕ, ◌≡◌, ◌⊎◌, inl, inr, refl, arith, false, Option, none, some, List, [], ◌∷◌, All, ap, String,
  Bool-cases, ◌==◌,
}
use my_deskflow.Core.Error.{Result-cases}
use my_deskflow.Gui.Supervisor.{
  Moment, World, probe, too_soon, is_running, launch_from, ensure_running, remove_process, kill,
  stop, restart, ensure_running_throttled,
}

-- What can happen: a call, or the end of a process.
pub data Input : Type 0 where
  ensure restarted : Moment → Input
  throttled : ℕ → Moment → Input
  stopped : Input
  died : ℕ → Input

unfoldable pub step : World → Input → World
step w (ensure m) = (ensure_running m w).0
step w (restarted m) = (restart m w).0
step w (throttled cooldown m) = (ensure_running_throttled cooldown m w).0
step w stopped = stop w
step w (died pid) = record w { alive = remove_process pid w.alive }

unfoldable pub run : World → List Input → World
run w [] = w
run w (i ∷ is) = run (step w i) is

-- `try_wait` answers.
abbrev pub CanWait : Input → Type 0
CanWait (ensure m) = m.wait_fails ≡ false
CanWait (restarted m) = m.wait_fails ≡ false
CanWait (throttled cooldown m) = m.wait_fails ≡ false
CanWait _ = Unit {0}

abbrev pub OnlyChild : Option ℕ → List ℕ → Type 0
OnlyChild none alive = alive ≡ []
OnlyChild (some pid) alive = (alive ≡ []) ⊎ (alive ≡ pid ∷ [])

-- No process lives but the child.
unfoldable pub IsOwned : World → Type 0
IsOwned w = OnlyChild w.supervisor.child w.alive

remove-only :
    (pid : ℕ) (child : Option ℕ) (alive : List ℕ)
    → OnlyChild child alive
    → OnlyChild child (remove_process pid alive)
remove-only pid none alive h = rw h refl
remove-only pid (some c) alive (inl h) = inl (rw h refl)
remove-only pid (some c) alive (inr h) = elim (Bool-cases (c == pid)) [
  | inl same ↦ inl (rw (h, same) refl)
  | inr other ↦ inr (rw (h, other) refl)
]

kill-only : (child : Option ℕ) (alive : List ℕ) → OnlyChild child alive → kill child alive ≡ []
kill-only none alive h = h
kill-only (some c) alive (inl h) = rw h refl
kill-only (some c) alive (inr h) = rw h (ground arith)

-- A child that does not answer as running is gone.
probe-gone :
    (m : Moment) (child : Option ℕ) (alive : List ℕ)
    → m.wait_fails ≡ false
    → OnlyChild child alive
    → probe m alive child ≡ false
    → alive ≡ []
probe-gone m none alive can h gone = h
probe-gone m (some c) alive can (inl h) gone = h
probe-gone m (some c) alive can (inr h) gone =
    let bad = rw (h, can) at gone in absurd (ground arith)

launch_from-only :
    (m : Moment) (w : World) (binary : Option String)
    → w.alive ≡ []
    → IsOwned w
    → IsOwned (launch_from m w binary).0
unfolding IsOwned
launch_from-only m w none gone h = h
launch_from-only m w (some bin) gone h = elim (Result-cases m.spawned) [
  | inl (pid, e) ↦ rw e (inr (ap (λ l. pid ∷ l) gone))
  | inr (x, e) ↦ rw e h
]

ensure_running-IsOwned :
    (m : Moment) (w : World) → m.wait_fails ≡ false → IsOwned w → IsOwned (ensure_running m w).0
unfolding ensure_running is_running IsOwned
ensure_running-IsOwned m w can h = elim (Bool-cases (probe m w.alive w.supervisor.child)) [
  | inl up ↦ rw up h
  | inr down ↦ rw down (
      launch_from-only m
        (record w { supervisor = record w.supervisor { last_launch_attempt = some m.now } })
        w.supervisor.binary (probe-gone m w.supervisor.child w.alive can h down) h)
]

stop-IsOwned : (w : World) → IsOwned w → IsOwned (stop w)
unfolding stop IsOwned
stop-IsOwned w h = kill-only w.supervisor.child w.alive h

pub stop-alive : (w : World) → IsOwned w → (stop w).alive ≡ []
unfolding stop IsOwned
stop-alive w h = kill-only w.supervisor.child w.alive h

died-IsOwned : (pid : ℕ) (w : World) → IsOwned w → IsOwned (step w (died pid))
unfolding step IsOwned
died-IsOwned pid w h = remove-only pid w.supervisor.child w.alive h

pub throttled-IsOwned :
    (cooldown : ℕ) (m : Moment) (w : World)
    → m.wait_fails ≡ false
    → IsOwned w
    → IsOwned (ensure_running_throttled cooldown m w).0
unfolding ensure_running_throttled ensure_running is_running
throttled-IsOwned cooldown m w can h = elim (Bool-cases (probe m w.alive w.supervisor.child)) [
  | inl up ↦ rw up h
  | inr down ↦ elim (Bool-cases (too_soon m.now cooldown w.supervisor.last_launch_attempt)) [
    | inl soon ↦ rw (down, soon) h
    | inr late ↦ let kept = ensure_running-IsOwned m w can h in rw (down, late) (rw down at kept)
  ]
]

pub step-IsOwned : (w : World) (i : Input) → CanWait i → IsOwned w → IsOwned (step w i)
unfolding step restart
step-IsOwned w (ensure m) can h = ensure_running-IsOwned m w can h
step-IsOwned w (restarted m) can h = ensure_running-IsOwned m (stop w) can (stop-IsOwned w h)
step-IsOwned w (throttled cooldown m) can h = throttled-IsOwned cooldown m w can h
step-IsOwned w stopped can h = stop-IsOwned w h
step-IsOwned w (died pid) can h = died-IsOwned pid w h

-- Over every run of calls and ends of processes in which `try_wait` answers, no daemon lives but
-- the supervisor's child, if so at first, and a final stop, as when the supervisor is dropped,
-- leaves none alive.
pub run-IsOwned :
    (w : World) (is : List Input)
    → All CanWait is
    → IsOwned w
    → IsOwned (run w is) × ((stop (run w is)).alive ≡ [])
unfolding run
run-IsOwned w [] can h = (h, stop-alive w h)
run-IsOwned w (i ∷ is) can h = run-IsOwned (step w i) is can.1 (step-IsOwned w i can.0 h)
