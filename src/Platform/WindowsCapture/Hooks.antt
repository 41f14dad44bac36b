-- ===== src/Platform/WindowsCapture/Hooks.antt =====
-- What the hook procedures of crates/platform/src/windows/capture.rs keep from the other programs,
-- and what they queue.
use my_deskflow.Prelude.{
  ℕ, ◌%◌, ◌^◌, ◌<◌, ◌≤◌, ◌≡◌, ◌≢◌, ◌⊎◌, ◌↔◌, inl, inr, Bool, true, Option, none, some, List, [],
  ◌∷◌, ◌++◌, length, arith, length-append,
}
use my_deskflow.Prelude.Int.{pos}
use my_deskflow.Platform.WindowsKeymap.{VirtualKey}
use my_deskflow.Platform.WindowsCapture.{
  RawEvent, WindowMessage, keydown, syskeydown, mousemove, lbuttondown, lbuttonup, rbuttondown,
  rbuttonup, mbuttondown, mbuttonup, mousewheel, mousehwheel, Channel, channel_bound, try_push,
  push_event, KeyboardHook, MouseHook, swallowed, keyboard_event, low_level_keyboard_proc,
  mouse_event, low_level_mouse_proc,
}

-- The events that wait, if there is a channel.
abbrev pub waiting : Option Channel → List RawEvent
waiting none = []
waiting (some ch) = ch.queued

abbrev pub IsBounded : Option Channel → Type 0
IsBounded tx = length (waiting tx) ≤ channel_bound

-- There is a channel with a receiver and room.
abbrev pub HasRoom : Channel → Type 0
HasRoom ch = (ch.connected ≡ true) × (length ch.queued < channel_bound)

try_push-room :
    (ch : Channel) (ev : RawEvent)
    → HasRoom ch
    → waiting (try_push (some ch) ev) ≡ ch.queued ++ (ev ∷ [])
unfolding try_push
try_push-room ch ev room = ground arith

-- A push keeps what waits and adds at most the event, within the bound.
pub push_event-IsBounded :
    (tx : Option Channel) (ev : Option RawEvent) → IsBounded tx → IsBounded (push_event tx ev)
unfolding try_push
push_event-IsBounded none none h = h
push_event-IsBounded none (some ev) h = h
push_event-IsBounded (some ch) none h = h
push_event-IsBounded (some ch) (some ev) h = ground (arith, length-append ch.queued (ev ∷ []))

module _ (wm : WindowMessage → ℕ) (value : VirtualKey → ℕ) where
  -- A key event is kept from the other programs exactly while capturing is on and the key is not
  -- Escape.
  pub low_level_keyboard_proc-swallowed :
      (capturing : Bool) (tx : Option Channel) (code wparam : ℕ) (kb : KeyboardHook)
      → ((low_level_keyboard_proc wm value capturing tx (pos code) wparam kb).1 ≡ swallowed)
        ↔ ((capturing ≡ true) × (kb.vk_code ≢ value VirtualKey.escape))
  unfolding low_level_keyboard_proc
  low_level_keyboard_proc-swallowed capturing tx code wparam kb =
      (λ h. (ground arith, λ e. ground arith), λ h. ground arith)

  -- A press or release that is kept from the other programs is the last event that waits, if the
  -- channel has room.
  pub low_level_keyboard_proc-queues :
      (ch : Channel) (code wparam : ℕ) (kb : KeyboardHook)
      → HasRoom ch
      → (wparam % 2 ^ 32 ≡ wm keydown) ⊎ (wparam % 2 ^ 32 ≡ wm syskeydown)
      → waiting (low_level_keyboard_proc wm value true (some ch) (pos code) wparam kb).0
        ≡ ch.queued ++ (RawEvent.key_down kb.vk_code kb.scan_code ∷ [])
  unfolding low_level_keyboard_proc keyboard_event try_push
  low_level_keyboard_proc-queues ch code wparam kb room (inl e) = ground arith
  low_level_keyboard_proc-queues ch code wparam kb room (inr e) = ground arith

module _ (wm : WindowMessage → ℕ) where
  -- Messages that the procedure does not name, those of the two side buttons among them.
  abbrev pub IsUnnamed : ℕ → Type 0
  IsUnnamed w = (m : WindowMessage) → w ≢ wm m

  mouse_event-none : (w : ℕ) (ms : MouseHook) → IsUnnamed w → mouse_event wm w ms ≡ none
  unfolding mouse_event
  mouse_event-none w ms un = ground (
    arith,
    un mousemove,
    un lbuttondown,
    un lbuttonup,
    un rbuttondown,
    un rbuttonup,
    un mbuttondown,
    un mbuttonup,
    un mousewheel,
    un mousehwheel,
  )

  -- While capturing, a mouse message that the procedure does not name, such as that of a side
  -- button, is kept from the other programs and queued nowhere.
  pub low_level_mouse_proc-lost :
      (tx : Option Channel) (code wparam : ℕ) (ms : MouseHook)
      → IsUnnamed (wparam % 2 ^ 32)
      → low_level_mouse_proc wm true tx (pos code) wparam ms ≡ (tx, swallowed)
  unfolding low_level_mouse_proc
  low_level_mouse_proc-lost tx code wparam ms un =
      ground (arith, mouse_event-none (wparam % 2 ^ 32) ms un, un mousemove)
