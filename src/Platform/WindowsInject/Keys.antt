-- ===== src/Platform/WindowsInject/Keys.antt =====
-- What crates/platform/src/windows/inject.rs does with what capture.rs took from another machine.
use my_deskflow.Prelude.{
  ℕ, ◌<◌, ◌%◌, ◌^◌, ◌≡◌, ◌≢◌, refl, Bool, true, false, not, none, some, [], ◌∷◌, arith,
}
use my_deskflow.Core.Modifiers.{ModifierState}
use my_deskflow.Core.Event.{KeyState, pressed, released, KeyCode}
use my_deskflow.Platform.WindowsKeymap.{VirtualKey, keycode_to_vk, vk_to_keycode}
use my_deskflow.Platform.WindowsKeymap.RoundTrip.{IsInjective, keycode_to_vk-vk_to_keycode}
use my_deskflow.Platform.WindowsCapture.{RawEvent, translate}
use my_deskflow.Platform.WindowsInject.{
  System, keyboard_input, inputs_of, key_event, key_vk, is_pressed,
}

-- The events of a key, by whether it goes down.
abbrev pub key_raw : Bool → ℕ → ℕ → RawEvent
key_raw true vk scan = RawEvent.key_down vk scan
key_raw false vk scan = RawEvent.key_up vk scan

key_event-known :
    (s : System) (m : ModifierState) (code : KeyCode) (state : KeyState) (vk : VirtualKey)
    → keycode_to_vk code ≡ some vk
    → key_event s (record { code = code; state = state; modifiers = m; character = none })
      ≡ key_vk s vk (is_pressed state)
unfolding key_event
key_event-known s m code state vk h = ground arith

-- If different virtual keys have different values, a key of a 16-bit value that was captured on
-- one machine and has a key code is injected on another as the one virtual key whose value was
-- captured, down where it went down and up where it went up.
pub inputs_of-translate_key :
    (value : VirtualKey → ℕ) (s : System) (m : ModifierState) (down : Bool) (n scan : ℕ)
    → IsInjective value
    → n < 2 ^ 16
    → vk_to_keycode value n ≢ KeyCode.unknown
    → (vk : VirtualKey) × (value vk ≡ n)
      × (inputs_of s (translate value m (key_raw down n scan))
          ≡ keyboard_input vk (s.scan_of vk % 2 ^ 16) (not down) ∷ [])
unfolding inputs_of translate key_vk
inputs_of-translate_key value s m true n scan inj lt known =
    let (vk, back, here) = (keycode_to_vk-vk_to_keycode value inj).1 n known in
    let small : n % 2 ^ 16 ≡ n = omega arith in
    (vk, here, rw (small, key_event-known s m _ pressed vk back) refl)
inputs_of-translate_key value s m false n scan inj lt known =
    let (vk, back, here) = (keycode_to_vk-vk_to_keycode value inj).1 n known in
    let small : n % 2 ^ 16 ≡ n = omega arith in
    (vk, here, rw (small, key_event-known s m _ released vk back) refl)
