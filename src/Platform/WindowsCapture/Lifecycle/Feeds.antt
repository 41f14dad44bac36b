-- ===== src/Platform/WindowsCapture/Lifecycle/Feeds.antt =====
-- To which sink the capture of crates/platform/src/windows/capture.rs feeds what it captures.
use my_deskflow.Prelude.{ℕ, ◌≡◌, true, none, some, arith}
use my_deskflow.Platform.WindowsCapture.Lifecycle.{
  WindowsCapture, no_call, Event, started, stopped, captured, installed, message, received, joined,
  start, set_capturing, hooks_set, on_call, on_hook_thread, on_drain_thread, step,
}

-- The capture runs and its events go to that sink.
pub record FeedsOnly (k : ℕ) (c : WindowsCapture) : Type 0 where
  pub runs : c.running ≡ true
  pub feeds : c.sink ≡ some k
  pub no_stop : c.call ≡ no_call

-- The hooks can be installed, and the platform's `stop` is not called.
abbrev pub IsSmooth : Event → Type 0
IsSmooth (installed (some k) (some m)) = Unit
IsSmooth (installed _ _) = ⊥
IsSmooth stopped = ⊥
IsSmooth _ = Unit

pub step-FeedsOnly :
    (k : ℕ) (c : WindowsCapture) (e : Event) → IsSmooth e → FeedsOnly k c → FeedsOnly k (step c e)
unfolding step on_call on_hook_thread on_drain_thread start set_capturing hooks_set
step-FeedsOnly k c (started sink h d) q f = ground arith
step-FeedsOnly k c stopped q f = absurd q
step-FeedsOnly k c (captured on) q f = ground arith
step-FeedsOnly k c (installed (some a) (some b)) q f = ground arith
step-FeedsOnly k c (installed none b) q f = absurd q
step-FeedsOnly k c (installed (some a) none) q f = absurd q
step-FeedsOnly k c message q f = ground arith
step-FeedsOnly k c received q f = ground arith
step-FeedsOnly k c joined q f = ground arith
