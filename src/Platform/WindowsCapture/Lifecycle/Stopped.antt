-- ===== src/Platform/WindowsCapture/Lifecycle/Stopped.antt =====
-- What `stop` of crates/platform/src/windows/capture.rs leaves, and what it waits for.
use my_deskflow.Prelude.{
  ℕ, ◌≡◌, ◌≢◌, refl, Bool, true, false, Option, none, some, List, [], ◌∷◌, All, arith,
}
use my_deskflow.Prelude.Int.{ℤ}
use my_deskflow.Platform.WindowsKeymap.{VirtualKey}
use my_deskflow.Platform.WindowsCapture.{
  WindowMessage, KeyboardHook, MouseHook, passed_on, low_level_keyboard_proc, low_level_mouse_proc,
}
use my_deskflow.Platform.WindowsCapture.Lifecycle.{
  HookThread, installing, waiting, finished, DrainThread, receiving, drained, Call, no_call,
  joining_drain, joining_hook, WindowsCapture, start, spawn_threads, spawn_drain, stop, hooks_set,
  joins_drain, joins_hook, Event, started, stopped, captured, installed, message, received, joined,
  on_call, on_hook_thread, on_drain_thread, step, run,
}

-- `GetMessageW` does not return.
abbrev pub IsQuiet : Event → Type 0
IsQuiet message = ⊥
IsQuiet _ = Unit

-- A call of `stop` waits, and the hook thread is in `GetMessageW`.
abbrev pub IsStopping : Call → Type 0
IsStopping no_call = ⊥
IsStopping _ = Unit

abbrev pub Waits : WindowsCapture → Type 0
Waits s = (s.hook_thread ≡ some waiting) × IsStopping s.call

joins_drain-Waits :
    (t : Option DrainThread) (s : WindowsCapture) → Waits s → Waits (joins_drain t s)
unfolding joins_drain
joins_drain-Waits none s w = (w.0, tt)
joins_drain-Waits (some receiving) s w = w
joins_drain-Waits (some drained) s w = (w.0, tt)

joins_hook-Waits :
    (t : Option HookThread) (s : WindowsCapture)
    → t ≡ some waiting
    → Waits s
    → Waits (joins_hook t s)
unfolding joins_hook
joins_hook-Waits none s h w = absurd (cc)
joins_hook-Waits (some installing) s h w = w
joins_hook-Waits (some waiting) s h w = w
joins_hook-Waits (some finished) s h w = absurd (cc)

on_call-Waits :
    (c : Call) (e : Event) (s : WindowsCapture) → IsStopping c → Waits s → Waits (on_call c e s)
unfolding on_call
on_call-Waits no_call e s h w = absurd h
on_call-Waits joining_drain joined s h w = joins_drain-Waits s.drain_thread s w
on_call-Waits joining_drain _ s h w = w
on_call-Waits joining_hook joined s h w = joins_hook-Waits s.hook_thread s w.0 w
on_call-Waits joining_hook _ s h w = w

on_hook_thread-Waits :
    (t : Option HookThread) (k m : Option ℕ) (s : WindowsCapture)
    → t ≡ some waiting
    → Waits s
    → Waits (on_hook_thread t (installed k m) s)
unfolding on_hook_thread
on_hook_thread-Waits none k m s h w = w
on_hook_thread-Waits (some installing) k m s h w = absurd (cc)
on_hook_thread-Waits (some waiting) k m s h w = w
on_hook_thread-Waits (some finished) k m s h w = w

on_drain_thread-Waits :
    (t : Option DrainThread) (s : WindowsCapture) → Waits s → Waits (on_drain_thread t s)
unfolding on_drain_thread
on_drain_thread-Waits none s w = w
on_drain_thread-Waits (some receiving) s w = w
on_drain_thread-Waits (some drained) s w = w

step-Waits : (s : WindowsCapture) (e : Event) → IsQuiet e → Waits s → Waits (step s e)
unfolding step
step-Waits s (captured on) q w = w
step-Waits s (installed k m) q w = on_hook_thread-Waits s.hook_thread k m s w.0 w
step-Waits s message q w = absurd q
step-Waits s received q w = on_drain_thread-Waits s.drain_thread s w
step-Waits s (started n h d) q w = on_call-Waits s.call (started n h d) s w.1 w
step-Waits s stopped q w = on_call-Waits s.call stopped s w.1 w
step-Waits s joined q w = on_call-Waits s.call joined s w.1 w

run-Waits : (s : WindowsCapture) (es : List Event) → All IsQuiet es → Waits s → Waits (run s es)
unfolding run
run-Waits s [] q w = w
run-Waits s (e ∷ es) q w = run-Waits (step s e) es q.1 (step-Waits s e q.0 w)

stopping_call : (c : Call) → IsStopping c → c ≢ no_call
stopping_call no_call h = absurd h
stopping_call joining_drain h = cc
stopping_call joining_hook h = cc

-- On Windows, a stop of the capture that is called, in no other call, while the hook thread is in
-- GetMessageW does not return over any events in which GetMessageW does not return.
pub stop_waits :
    (s : WindowsCapture) (es : List Event)
    → s.call ≡ no_call
    → s.hook_thread ≡ some waiting
    → All IsQuiet es
    → (run s (stopped ∷ es)).call ≢ no_call
unfolding run step
stop_waits s es idle h q =
    let w : Waits (step s stopped) = rw idle (h, tt) in
    stopping_call (run s (stopped ∷ es)).call (run-Waits (step s stopped) es q w).1

-- With one message for the hook thread, `stop` ends both threads and returns.
pub stop_returns :
    (s : WindowsCapture)
    → s.call ≡ no_call
    → s.hook_thread ≡ some waiting
    → s.drain_thread ≡ some receiving
    → (run s (stopped ∷ message ∷ received ∷ joined ∷ joined ∷ [])).call ≡ no_call
unfolding run step on_call stop joins_drain joins_hook on_hook_thread on_drain_thread
stop_returns s idle h d = rw idle (rw h (rw d refl))

-- Nobody switches capturing on.
abbrev pub IsModest : Event → Type 0
IsModest (captured true) = ⊥
IsModest _ = Unit

start-off :
    (sink : ℕ) (h d : Bool) (s : WindowsCapture)
    → s.hook_capturing ≡ false
    → (start sink h d s).0.hook_capturing ≡ false
unfolding start spawn_threads spawn_drain
start-off sink true true s off = ground arith
start-off sink true false s off = ground arith
start-off sink false d s off = ground arith

on_call-off :
    (c : Call) (e : Event) (s : WindowsCapture)
    → IsModest e
    → s.hook_capturing ≡ false
    → (on_call c e s).hook_capturing ≡ false
unfolding on_call stop joins_drain joins_hook
on_call-off no_call (started sink h d) s q off = start-off sink h d s off
on_call-off no_call stopped s q off = refl
on_call-off no_call _ s q off = off
on_call-off joining_drain joined s q off = ground arith
on_call-off joining_drain _ s q off = off
on_call-off joining_hook joined s q off = ground arith
on_call-off joining_hook _ s q off = off

step-off :
    (s : WindowsCapture) (e : Event)
    → IsModest e
    → s.hook_capturing ≡ false
    → (step s e).hook_capturing ≡ false
unfolding step on_hook_thread on_drain_thread hooks_set
step-off s (captured true) q off = absurd q
step-off s (captured false) q off = refl
step-off s (installed k m) q off = ground arith
step-off s message q off = ground arith
step-off s received q off = ground arith
step-off s (started n h d) q off = on_call-off s.call (started n h d) s q off
step-off s stopped q off = on_call-off s.call stopped s q off
step-off s joined q off = on_call-off s.call joined s q off

run-off :
    (s : WindowsCapture) (es : List Event)
    → All IsModest es
    → s.hook_capturing ≡ false
    → (run s es).hook_capturing ≡ false
unfolding run
run-off s [] q off = off
run-off s (e ∷ es) q off = run-off (step s e) es q.1 (step-off s e q.0 off)

stop-off : (s : WindowsCapture) → s.call ≡ no_call → (step s stopped).hook_capturing ≡ false
unfolding step on_call stop
stop-off s idle = rw idle refl

module _ (wm : WindowMessage → ℕ) (value : VirtualKey → ℕ) where
  -- From a call of `stop` on, and until capturing is switched on again, both hook procedures pass
  -- every event on to the other programs, also while hooks are installed again by a `start`.
  pub stop_passes_on :
      (s : WindowsCapture) (es : List Event) (code : ℤ) (wparam : ℕ) (kb : KeyboardHook)
      (ms : MouseHook)
      → s.call ≡ no_call
      → All IsModest es
      → ((low_level_keyboard_proc wm value
            (run s (stopped ∷ es)).hook_capturing
            (run s (stopped ∷ es)).hook_tx
            code
            wparam
            kb).1
          ≡ passed_on)
        × ((low_level_mouse_proc wm
              (run s (stopped ∷ es)).hook_capturing
              (run s (stopped ∷ es)).hook_tx
              code
              wparam
              ms).1
            ≡ passed_on)
  unfolding run low_level_keyboard_proc low_level_mouse_proc
  stop_passes_on s es code wparam kb ms idle q =
      let off = run-off (step s stopped) es q (stop-off s idle) in
      rw off (ground arith, ground arith)
