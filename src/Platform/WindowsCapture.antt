-- ===== src/Platform/WindowsCapture.antt =====
-- crates/platform/src/windows/capture.rs: the hook procedures, the bounded channel that they fill,
-- and the drain thread. The values of the constants of the windows crate are parameters; what a hook
-- reads through its pointers is its argument.
pub mod Hooks
pub mod Drain
pub mod HeldKeys
pub mod ModifierKeys
pub mod Wheel
pub mod Lifecycle
use my_deskflow.Prelude.{
  ℕ, ◌-◌, ◌/◌, ◌%◌, ◌^◌, Bool, true, false, not, ◌&&◌, ◌||◌, Option, none, some, List, [], ◌∷◌,
  ◌++◌, leb, ◌==◌, length, if◌then◌else◌,
}
use my_deskflow.Prelude.Int.{ℤ, pos, negsuc}
use my_deskflow.Core.Modifiers.{
  ModifierState, shift, ctrl, alt, super, caps_lock, num_lock, insert, remove,
}
use my_deskflow.Core.Event.{
  InputEvent, MouseEvent, Button, KeyEvent, KeyState, pressed, released, ScrollDelta,
}
use my_deskflow.Platform.WindowsKeymap.{VirtualKey, vk_to_keycode}

pub data RawEvent : Type 0 where
  key_down key_up : ℕ → ℕ → RawEvent  -- vk, scan
  mouse_move : ℤ → ℤ → RawEvent
  mouse_button : Button → Bool → RawEvent  -- down
  mouse_scroll : Bool → ℤ → RawEvent  -- horizontal, an i16

unfoldable pub scan_code : RawEvent → Option ℕ
scan_code (key_down vk scan) = some scan
scan_code (key_up vk scan) = some scan
scan_code _ = none

abbrev pub is_move : RawEvent → Bool
is_move (mouse_move x y) = true
is_move _ = false

-- The messages that the hooks name.
pub data WindowMessage : Type 0 where
  keydown syskeydown keyup syskeyup mousemove lbuttondown lbuttonup : WindowMessage
  rbuttondown rbuttonup mbuttondown mbuttonup mousewheel mousehwheel : WindowMessage

-- `bounded::<RawEvent>(8192)`: what is queued, and whether the receiver is there.
pub record Channel : Type 0 where
  pub queued : List RawEvent
  pub connected : Bool

abbrev pub channel_bound : ℕ
channel_bound = 8192

unfoldable pub try_push : Option Channel → RawEvent → Option Channel
try_push none ev = none
try_push (some ch) ev =
    if not ch.connected || leb channel_bound (length ch.queued)
    then some ch
    else some (record ch { queued = ch.queued ++ (ev ∷ []) })

abbrev pub push_event : Option Channel → Option RawEvent → Option Channel
push_event tx none = tx
push_event tx (some ev) = try_push tx ev

-- `KBDLLHOOKSTRUCT` and `MSLLHOOKSTRUCT`, by the fields that are read.
pub record KeyboardHook : Type 0 where
  pub vk_code : ℕ
  pub scan_code : ℕ

pub record MouseHook : Type 0 where
  pub pt_x : ℤ
  pub pt_y : ℤ
  pub mouse_data : ℕ  -- u32

-- `LRESULT(1)`, or `CallNextHookEx`.
pub data Verdict : Type 0 where
  swallowed passed_on : Verdict

-- `((ms.mouseData >> 16) & 0xFFFF) as i16`.
abbrev pub wheel_delta : ℕ → ℤ
wheel_delta d =
    let hi = d / 2 ^ 16 % 2 ^ 16 in if leb (2 ^ 15) hi then negsuc (2 ^ 16 - hi - 1) else pos hi

abbrev pub is_negative : ℤ → Bool
is_negative (pos n) = false
is_negative (negsuc n) = true

module _ (wm : WindowMessage → ℕ) where
  unfoldable pub keyboard_event : ℕ → KeyboardHook → Option RawEvent
  keyboard_event w kb =
      if w == wm keydown || w == wm syskeydown
      then some (key_down kb.vk_code kb.scan_code)
      else if w == wm keyup || w == wm syskeyup
      then some (key_up kb.vk_code kb.scan_code)
      else none

  unfoldable pub mouse_event : ℕ → MouseHook → Option RawEvent
  mouse_event w ms =
      if w == wm mousemove
      then some (mouse_move ms.pt_x ms.pt_y)
      else if w == wm lbuttondown
      then some (mouse_button Button.left true)
      else if w == wm lbuttonup
      then some (mouse_button Button.left false)
      else if w == wm rbuttondown
      then some (mouse_button Button.right true)
      else if w == wm rbuttonup
      then some (mouse_button Button.right false)
      else if w == wm mbuttondown
      then some (mouse_button Button.middle true)
      else if w == wm mbuttonup
      then some (mouse_button Button.middle false)
      else if w == wm mousewheel
      then some (mouse_scroll false (wheel_delta ms.mouse_data))
      else if w == wm mousehwheel
      then some (mouse_scroll true (wheel_delta ms.mouse_data))
      else none

  unfoldable pub low_level_mouse_proc :
      Bool → Option Channel → ℤ → ℕ → MouseHook → Option Channel × Verdict
  low_level_mouse_proc capturing tx code wparam ms =
      let w = wparam % 2 ^ 32 in
      if is_negative code then (tx, passed_on) else (
        push_event tx (mouse_event w ms),
        if capturing && not (w == wm mousemove) then swallowed else passed_on,
      )

module _ (wm : WindowMessage → ℕ) (value : VirtualKey → ℕ) where
  -- `low_level_keyboard_proc`: the channel behind it, and what becomes of the event.
  unfoldable pub low_level_keyboard_proc :
      Bool → Option Channel → ℤ → ℕ → KeyboardHook → Option Channel × Verdict
  low_level_keyboard_proc capturing tx code wparam kb =
      if is_negative code then (tx, passed_on) else (
        push_event tx (keyboard_event wm (wparam % 2 ^ 32) kb),
        if capturing && not (kb.vk_code == value VirtualKey.escape) then swallowed else passed_on,
      )

module _ (value : VirtualKey → ℕ) where
  is_one_of : List VirtualKey → ℕ → Bool
  is_one_of [] vk = false
  is_one_of (name ∷ names) vk = value name == vk || is_one_of names vk

  -- The flag of the match in `update_modifiers`.
  unfoldable pub flag_of : ℕ → Option ModifierState
  unfolding is_one_of
  flag_of vk =
      if is_one_of (VirtualKey.lshift ∷ VirtualKey.rshift ∷ VirtualKey.shift ∷ []) vk
      then some shift
      else if is_one_of (VirtualKey.lcontrol ∷ VirtualKey.rcontrol ∷ VirtualKey.control ∷ []) vk
      then some ctrl
      else if is_one_of (VirtualKey.lmenu ∷ VirtualKey.rmenu ∷ VirtualKey.menu ∷ []) vk
      then some alt
      else if is_one_of (VirtualKey.lwin ∷ VirtualKey.rwin ∷ []) vk
      then some super
      else if is_one_of (VirtualKey.capital ∷ []) vk
      then some caps_lock
      else if is_one_of (VirtualKey.numlock ∷ []) vk
      then some num_lock
      else none

  unfoldable pub update_modifiers : ModifierState → ℕ → Bool → ModifierState
  update_modifiers m vk down = elim (flag_of (vk % 2 ^ 16)) [
    | none ↦ m
    | some flag ↦ if down then insert m flag else remove m flag
  ]

  unfoldable pub note_key : ModifierState → RawEvent → ModifierState
  note_key m (key_down vk scan) = update_modifiers m vk true
  note_key m (key_up vk scan) = update_modifiers m vk false
  note_key m _ = m

  abbrev pub key_of : ModifierState → ℕ → KeyState → InputEvent
  key_of m vk state = InputEvent.key (record {
    code = vk_to_keycode value (vk % 2 ^ 16);
    state = state;
    modifiers = m;
    character = none;
  })

  unfoldable pub translate : ModifierState → RawEvent → InputEvent
  translate m (key_down vk scan) = key_of m vk pressed
  translate m (key_up vk scan) = key_of m vk released
  translate m (mouse_move x y) = InputEvent.mouse (MouseEvent.move x y)
  translate m (mouse_button b down) =
      InputEvent.mouse (MouseEvent.button b (if down then pressed else released))
  translate m (mouse_scroll horizontal delta) = InputEvent.mouse (
      MouseEvent.scroll (record {
        horizontal = if horizontal then delta else pos 0;
        vertical = if horizontal then pos 0 else delta;
      }))

  -- One round of `drain_thread_main`: the modifiers, and what the sink gets.
  unfoldable pub drain_raw : Bool → ModifierState → RawEvent → ModifierState × List InputEvent
  drain_raw capturing m raw =
      let m' = note_key m raw in
      (m', if capturing || is_move raw then translate m' raw ∷ [] else [])

  -- The rounds, each with the flag as it is then.
  unfoldable pub drain_all :
      ModifierState → List (Bool × RawEvent) → ModifierState × List InputEvent
  drain_all m [] = (m, [])
  drain_all m ((capturing, raw) ∷ rest) =
      let (m', sent) = drain_raw capturing m raw in
      let (m'', later) = drain_all m' rest in (m'', sent ++ later)
