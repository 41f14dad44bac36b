-- ===== src/Daemon/Sessions/Deaf.antt =====
-- Where the captured input goes when the server of crates/daemon/src/app.rs is stopped and started
-- again.
use my_deskflow.Prelude.{ℕ, ◌+◌, ◌<◌, ◌≤◌, ◌≡◌, refl, true, some, List, [], ◌∷◌, All, arith}
use my_deskflow.Core.Error.{Error, Result, ok, err}
use my_deskflow.Platform.WindowsCapture.Lifecycle.{started}
use my_deskflow.Platform.WindowsCapture.Lifecycle.Feeds.{FeedsOnly, IsSmooth, step-FeedsOnly}
use my_deskflow.Daemon.Lifecycle.{DaemonState, Bound, start_server}
use my_deskflow.Daemon.Sessions.{
  Host, Input, start, stop, emergency, turn, start_with, serve, serve_all,
}

-- The platform's `stop` is not called, which the daemon never does, and hooks can be installed.
abbrev pub IsUsual : Input → Type 0
IsUsual (turn e) = IsSmooth e
IsUsual _ = Unit

start_with-FeedsOnly :
    (k : ℕ) (h : Host) (d : DaemonState × Result Error Bound)
    → FeedsOnly k h.capture
    → FeedsOnly k (start_with d h).capture
unfolding start_with
start_with-FeedsOnly k h (d, err e) f = f
start_with-FeedsOnly k h (d, ok bound) f =
    step-FeedsOnly k h.capture (started h.sessions true true) tt f

serve-FeedsOnly :
    (k : ℕ) (h : Host) (i : Input)
    → IsUsual i
    → FeedsOnly k h.capture
    → FeedsOnly k (serve h i).capture
unfolding serve
serve-FeedsOnly k h (start bound) q f = start_with-FeedsOnly k h (start_server h.daemon bound) f
serve-FeedsOnly k h stop q f = f
serve-FeedsOnly k h emergency q f = f
serve-FeedsOnly k h (turn e) q f = step-FeedsOnly k h.capture e q f

serve_all-FeedsOnly :
    (k : ℕ) (h : Host) (is : List Input)
    → All IsUsual is
    → FeedsOnly k h.capture
    → FeedsOnly k (serve_all h is).capture
unfolding serve_all
serve_all-FeedsOnly k h [] q f = f
serve_all-FeedsOnly k h (i ∷ is) q f =
    serve_all-FeedsOnly k (serve h i) is q.1 (serve-FeedsOnly k h i q.0 f)

-- The number of sessions never falls.
serve_sessions : (h : Host) (i : Input) → h.sessions ≤ (serve h i).sessions
unfolding serve start_with
serve_sessions h (start bound) = start_sessions (start_server h.daemon bound)
  where
    start_sessions : (d : DaemonState × Result Error Bound) → h.sessions ≤ (start_with d h).sessions
    start_sessions (d, err e) = omega arith
    start_sessions (d, ok b) = omega arith
serve_sessions h stop = omega arith
serve_sessions h emergency = omega arith
serve_sessions h (turn e) = omega arith

serve_all_sessions : (h : Host) (is : List Input) → h.sessions ≤ (serve_all h is).sessions
unfolding serve_all
serve_all_sessions h [] = omega arith
serve_all_sessions h (i ∷ is) = omega (arith, serve_sessions h i, serve_all_sessions (serve h i) is)

start_with_ok :
    (h : Host) (d : DaemonState × Result Error Bound) (bound : Bound)
    → d.1 ≡ ok bound
    → (start_with d h).sessions ≡ h.sessions + 1
unfolding start_with
start_with_ok h (d, ok b) bound e = refl
start_with_ok h (d, err x) bound e = absurd (cc)

-- On Windows, from a host whose running capture feeds a session and is in no call of the
-- platform's stop, over any requests and steps in which that stop is not called and the hooks can
-- be installed, a start of the server that succeeds then spawns a session with a higher number
-- than the one that the capture still feeds.
pub restart_is_deaf :
    (k : ℕ) (h : Host) (is : List Input) (bound : Bound)
    → k < h.sessions
    → FeedsOnly k h.capture
    → All IsUsual is
    → (start_server (serve_all h is).daemon (ok bound)).1 ≡ ok bound
    → ((serve (serve_all h is) (start (ok bound))).sessions ≡ (serve_all h is).sessions + 1)
      × ((serve (serve_all h is) (start (ok bound))).capture.sink ≡ some k)
      × (k < (serve_all h is).sessions)
unfolding serve start_with
restart_is_deaf k h is bound lt f q started_ok =
    let g = serve_all h is in
    (
      start_with_ok g (start_server g.daemon (ok bound)) bound started_ok,
      (serve-FeedsOnly k g (start (ok bound)) tt (serve_all-FeedsOnly k h is q f)).feeds,
      omega (arith, serve_all_sessions h is),
    )
