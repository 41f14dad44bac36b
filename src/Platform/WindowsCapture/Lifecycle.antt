-- ===== src/Platform/WindowsCapture/Lifecycle.antt =====
-- crates/platform/src/windows/capture.rs: `start`, `stop`, `set_capturing` and the two threads of
-- `WindowsCapture`, with the statics that the hook procedures read. What the system answers to a
-- spawn or to the installation of a hook is part of an event. One call of the trait runs at a time,
-- and `stop` waits at each of its two joins.
pub mod Stopped
pub mod Feeds
use my_deskflow.Prelude.{
  ℕ, Bool, true, false, ◌&&◌, not, Option, none, some, List, [], ◌∷◌, ◌++◌, ◌==◌, if◌then◌else◌,
}
use my_deskflow.Core.Error.{Error, Result, ok, err, platform}
use my_deskflow.Platform.WindowsCapture.{Channel}

abbrev pub Done : Type 0
Done = Unit

-- Where `hook_thread_main` is: before the installation, in `GetMessageW`, or at its end.
pub data HookThread : Type 0 where
  installing waiting finished : HookThread

-- Where `drain_thread_main` is: in `recv_timeout`, or at its end.
pub data DrainThread : Type 0 where
  receiving drained : DrainThread

-- A call of `stop` that waits for a thread, or no call.
pub data Call : Type 0 where
  no_call joining_drain joining_hook : Call

-- `CaptureState`, then the statics. A hook is known by its handle, which is 0 for none.
pub record WindowsCapture : Type 0 where
  pub running : Bool
  pub capturing : Bool
  pub hook_thread : Option HookThread
  pub drain_thread : Option DrainThread
  pub sink : Option ℕ  -- the sink that the drain thread sends to
  pub hook_tx : Option Channel
  pub hook_capturing : Bool
  pub keyboard_hook : ℕ
  pub mouse_hook : ℕ
  pub call : Call

abbrev pub empty_channel : Channel
empty_channel = record { queued = []; connected = true }

abbrev pub fresh : WindowsCapture
fresh = record {
  running = false;
  capturing = false;
  hook_thread = none;
  drain_thread = none;
  sink = none;
  hook_tx = none;
  hook_capturing = false;
  keyboard_hook = 0;
  mouse_hook = 0;
  call = no_call;
}

-- The second half of `start`: the drain thread, which takes the sink.
spawn_drain : ℕ → Bool → WindowsCapture → WindowsCapture × Result Error Done
spawn_drain sink false s = (s, err (platform "spawn drain thread"))
spawn_drain sink true s = (record s { drain_thread = some receiving; sink = some sink }, ok tt)

-- The threads of `start`, by whether each can be spawned.
spawn_threads : ℕ → Bool → Bool → WindowsCapture → WindowsCapture × Result Error Done
unfolding spawn_drain
spawn_threads sink false drain_spawns s = (s, err (platform "spawn hook thread"))
spawn_threads sink true drain_spawns s =
    spawn_drain sink drain_spawns (record s { hook_thread = some installing })

unfoldable pub start : ℕ → Bool → Bool → WindowsCapture → WindowsCapture × Result Error Done
unfolding spawn_threads
start sink hook_spawns drain_spawns s =
    if s.running
    then (s, ok tt)
    else spawn_threads sink hook_spawns drain_spawns
        (record s { running = true; hook_tx = some empty_channel })

-- The hooks that `UnhookWindowsHookEx` is called for.
abbrev pub unhook : ℕ → List ℕ
unhook handle = if handle == 0 then [] else handle ∷ []

-- `stop` up to its first join, with the hooks that it removes.
unfoldable pub stop : WindowsCapture → WindowsCapture × List ℕ
stop s = (
  record s {
    running = false;
    capturing = false;
    hook_capturing = false;
    keyboard_hook = 0;
    mouse_hook = 0;
    hook_tx = none;
    call = joining_drain;
  },
  unhook s.keyboard_hook ++ unhook s.mouse_hook,
)

unfoldable pub set_capturing : Bool → WindowsCapture → WindowsCapture
set_capturing on s = record s { capturing = on; hook_capturing = on }

-- The test of the message loop: back to `GetMessageW`, or the end of the thread.
abbrev pub pump : Bool → HookThread
pump running = if running then waiting else finished

-- `hook_thread_main` up to its message loop, by the handles that the installations give.
unfoldable pub hooks_set : Option ℕ → Option ℕ → WindowsCapture → WindowsCapture
hooks_set (some k) (some m) s = record s {
  keyboard_hook = k;
  mouse_hook = m;
  hook_thread = some (pump s.running);
}
hooks_set _ _ s = record s { running = false; hook_thread = some finished }

abbrev pub is_some_channel : Option Channel → Bool
is_some_channel none = false
is_some_channel (some ch) = true

-- A round of `drain_thread_main`: it ends without its sender, or when it finds `running` cleared.
abbrev pub drain_round : WindowsCapture → DrainThread
drain_round s = if is_some_channel s.hook_tx && s.running then receiving else drained

-- A join is over when its thread has ended, or if there is none.
joins_drain : Option DrainThread → WindowsCapture → WindowsCapture
joins_drain (some receiving) s = s
joins_drain _ s = record s { drain_thread = none; call = joining_hook }

joins_hook : Option HookThread → WindowsCapture → WindowsCapture
joins_hook (some installing) s = s
joins_hook (some waiting) s = s
joins_hook _ s = record s { hook_thread = none; call = no_call }

-- What happens next: a call of the trait, a step of a thread, or a step of `stop`.
pub data Event : Type 0 where
  started : ℕ → Bool → Bool → Event
  stopped : Event
  captured : Bool → Event
  installed : Option ℕ → Option ℕ → Event
  message : Event  -- `GetMessageW` returns a message, which is not WM_QUIT
  received : Event  -- `recv_timeout` returns
  joined : Event

on_call : Call → Event → WindowsCapture → WindowsCapture
unfolding start stop set_capturing joins_drain joins_hook
on_call no_call (started sink h d) s = (start sink h d s).0
on_call no_call stopped s = (stop s).0
on_call joining_drain joined s = joins_drain s.drain_thread s
on_call joining_hook joined s = joins_hook s.hook_thread s
on_call c e s = s

on_hook_thread : Option HookThread → Event → WindowsCapture → WindowsCapture
unfolding hooks_set
on_hook_thread (some installing) (installed k m) s = hooks_set k m s
on_hook_thread (some waiting) message s = record s { hook_thread = some (pump s.running) }
on_hook_thread t e s = s

on_drain_thread : Option DrainThread → WindowsCapture → WindowsCapture
on_drain_thread (some receiving) s = record s { drain_thread = some (drain_round s) }
on_drain_thread t s = s

-- An event that cannot happen changes nothing.
unfoldable pub step : WindowsCapture → Event → WindowsCapture
unfolding on_call on_hook_thread on_drain_thread set_capturing
step s (captured on) = set_capturing on s
step s (installed k m) = on_hook_thread s.hook_thread (installed k m) s
step s message = on_hook_thread s.hook_thread message s
step s received = on_drain_thread s.drain_thread s
step s e = on_call s.call e s

unfoldable pub run : WindowsCapture → List Event → WindowsCapture
unfolding step
run s [] = s
run s (e ∷ es) = run (step s e) es
