-- ===== src/Platform/LinuxInject.antt =====
-- crates/platform/src/linux/inject.rs: from an input event to the batch of evdev events that is
-- written to the uinput device. The device is a parameter: what it returns for a batch.
pub mod Pointer
pub mod Keys
pub mod Device
use my_deskflow.Prelude.{
  ℕ, ◌+◌, ◌*◌, String, Bool, true, false, ◌&&◌, Option, none, some, List, [], ◌∷◌, ◌++◌, length,
  map, leb, ◌==◌, if◌then◌else◌,
}
use my_deskflow.Prelude.Int.{ℤ, pos, negsuc, ◌+ℤ◌, ◌-ℤ◌, leb_ℤ, eqb_ℤ}
use my_deskflow.Core.Error.{Error, Result, ok, err, platform}
use my_deskflow.Core.Screen.{Point}
use my_deskflow.Core.Event.{
  InputEvent, MouseEvent, Button, left, right, middle, back, forward, other, ScrollDelta, KeyEvent,
  KeyState, pressed, released, KeyCode, left_ctrl, right_ctrl, left_shift, right_shift, left_alt,
  right_alt, left_super, right_super, usage,
}
use my_deskflow.Routing.Edge.{sub_i32}

-- `input_linux::RelativeAxis`, by the axes that are used.
pub data RelativeAxis : Type 0 where
  x_axis y_axis vertical_wheel vertical_wheel_hi_res horizontal_wheel : RelativeAxis
  horizontal_wheel_hi_res : RelativeAxis

-- `input_event` without its time, which is zero; the event's type is the constructor.
pub data EvdevEvent : Type 0 where
  key_event_raw : ℕ → ℤ → EvdevEvent
  rel_event : RelativeAxis → ℤ → EvdevEvent
  syn : EvdevEvent

abbrev pub key_state_value : KeyState → ℤ
key_state_value pressed = pos 1
key_state_value released = pos 0

abbrev pub evdev_code : KeyCode → ℕ
evdev_code key = usage key + 8

unfoldable pub hid_to_evdev : KeyCode → Option ℕ
hid_to_evdev key = if leb 4 (usage key) && leb (usage key) 231 then some (usage key + 8) else none

unfoldable pub button_to_evdev : Button → Option ℕ
button_to_evdev left = some 272
button_to_evdev right = some 273
button_to_evdev middle = some 274
button_to_evdev back = some 278
button_to_evdev forward = some 277
button_to_evdev (other n) = none

-- `i32::saturating_add`.
abbrev pub saturating_add : ℤ → ℤ → ℤ
saturating_add a b =
    if leb_ℤ (pos 2147483647) (a +ℤ b)
    then pos 2147483647
    else if leb_ℤ (a +ℤ b) (negsuc 2147483647)
    then negsuc 2147483647
    else a +ℤ b

-- `delta as i32 * 120`, which an i16 cannot overflow.
abbrev pub times_120 : ℤ → ℤ
times_120 (pos n) = pos (120 * n)
times_120 (negsuc n) = negsuc (120 * n + 119)

-- What a call does: the batch that is written, if any, and the position known then.
pub record Injected : Type 0 where
  pub last_pos : Point
  pub batch : List EvdevEvent

-- `write_batch`, without the write: a batch ends with a report.
abbrev pub write_batch : List EvdevEvent → List EvdevEvent
write_batch events = events ++ (syn ∷ [])

abbrev pub move_to : Point → Point → Injected
move_to last target =
    let dx = sub_i32 target.x last.x in
    let dy = sub_i32 target.y last.y in
    record {
      last_pos = target;
      batch =
          if eqb_ℤ dx (pos 0) && eqb_ℤ dy (pos 0)
          then []
          else write_batch (rel_event x_axis dx ∷ rel_event y_axis dy ∷ []);
    }

abbrev pub wheel : RelativeAxis → RelativeAxis → ℤ → List EvdevEvent
wheel axis hi_res n =
    if eqb_ℤ n (pos 0) then [] else rel_event axis n ∷ rel_event hi_res (times_120 n) ∷ []

abbrev pub report : List EvdevEvent → List EvdevEvent
report [] = []
report (e ∷ es) = write_batch (e ∷ es)

abbrev pub key_batch : Option ℕ → KeyState → List EvdevEvent
key_batch none s = []
key_batch (some code) s = write_batch (key_event_raw code (key_state_value s) ∷ [])

-- `inject` up to the write.
unfoldable pub inject_batch : Point → InputEvent → Injected
unfolding hid_to_evdev button_to_evdev
inject_batch last (InputEvent.mouse (MouseEvent.move x y)) = move_to last (record { x = x; y = y })
inject_batch last (InputEvent.mouse (MouseEvent.move_relative dx dy)) = record {
  last_pos = record { x = saturating_add last.x dx; y = saturating_add last.y dy };
  batch = write_batch (rel_event x_axis dx ∷ rel_event y_axis dy ∷ []);
}
inject_batch last (InputEvent.mouse (MouseEvent.button b s)) = record {
  last_pos = last;
  batch = key_batch (button_to_evdev b) s;
}
inject_batch last (InputEvent.mouse (MouseEvent.scroll d)) = record {
  last_pos = last;
  batch = report (
      wheel vertical_wheel vertical_wheel_hi_res d.vertical
      ++ wheel horizontal_wheel horizontal_wheel_hi_res d.horizontal);
}
inject_batch last (InputEvent.key k) = record {
  last_pos = last;
  batch = key_batch (hid_to_evdev k.code) k.state;
}
inject_batch last _ = record { last_pos = last; batch = [] }

-- The device: how many events of a batch it took, or its error.
abbrev pub Device : Type 0
Device = List EvdevEvent → Result String ℕ

abbrev pub all_taken : ℕ → Result String ℕ → Result Error Bool
all_taken n (err e) = err (platform e)
all_taken n (ok written) = if written == n then ok true else err (platform "uinput short write")

-- The write of a batch; nothing is written if there is none.
unfoldable pub write_events : Device → List EvdevEvent → Result Error Bool
write_events dev [] = ok false
write_events dev (e ∷ es) = all_taken (length (e ∷ es)) (dev (e ∷ es))

-- `LinuxInject::inject`: the position known then, and whether a batch was written.
unfoldable pub inject : Device → Point → InputEvent → Point × Result Error Bool
unfolding inject_batch write_events
inject dev last e = let done = inject_batch last e in (done.last_pos, write_events dev done.batch)

-- `release_all_modifiers`, by the batch that it writes.
unfoldable pub release_all_modifiers : List EvdevEvent
release_all_modifiers =
    map (λ k. key_event_raw (evdev_code k) (pos 0))
      (left_ctrl ∷ right_ctrl ∷ left_shift ∷ right_shift ∷ left_alt ∷ right_alt ∷ left_super
        ∷ right_super ∷ [])
    ++ (syn ∷ [])
