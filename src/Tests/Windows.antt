-- ===== src/Tests/Windows.antt =====
-- The Windows backend at concrete inputs.
use my_deskflow.Prelude.{
  ◌+◌, ◌%◌, ◌^◌, ◌≡◌, ◌≢◌, refl, arith, true, false, none, some, List, [], ◌∷◌,
}
use my_deskflow.Prelude.Int.{pos, negsuc, ◌+ℤ◌, ◌≤ℤ◌}
use my_deskflow.Core.Modifiers.{ModifierState, empty, shift, contains}
use my_deskflow.Core.Modifiers.Laws.{IsFlag}
use my_deskflow.Core.Event.{KeyCode}
use my_deskflow.Platform.WindowsKeymap.{VirtualKey, vk_to_keycode}
use my_deskflow.Platform.WindowsCapture.{RawEvent, translate, update_modifiers}
use my_deskflow.Platform.WindowsCapture.HeldKeys.{note_keys, note_keys-last}
use my_deskflow.Platform.WindowsCapture.ModifierKeys.{modifier_of}
use my_deskflow.Platform.WindowsInject.{System, keyboard_input, inputs_of}
use my_deskflow.Platform.WindowsInject.Keys.{key_raw, inputs_of-translate_key}
use my_deskflow.Core.Error.{ok}
use my_deskflow.Core.Screen.{ScreenInfo}
use my_deskflow.Platform.Screens.Monitors.{MonitorInfoEx, local_screen_info}
use my_deskflow.Platform.Screens.Monitors.Reach.{local_screen_info-reaches}
use my_deskflow.Tests.VirtualKeys.{value}
use my_deskflow.Tests.VirtualKeys.Injective.{value-IsInjective}

abbrev machine : System
machine = record {
  virtual_w = pos 1920;
  virtual_h = pos 1080;
  scan_of = λ vk. value vk + 1;
  send_input = λ inputs. 1;
  message = λ m n. "short write";
}

-- Both Shift keys go down, a mouse is moved, and one Shift key goes up: none is held.
abbrev both_shifts : List RawEvent
both_shifts =
    RawEvent.key_down 160 42 ∷ RawEvent.key_down 161 54 ∷ RawEvent.mouse_move (pos 3) (pos 4) ∷ []

known_a : vk_to_keycode value 65 ≢ KeyCode.unknown
unfolding vk_to_keycode
known_a h = cc

note_keys-last_example :
    let after = update_modifiers value (note_keys value empty both_shifts) 161 false in
    (contains after shift ≡ false)
    × ((g : ModifierState)
        → IsFlag g
        → g ≢ shift
        → contains after g ≡ contains (note_keys value empty both_shifts) g)
unfolding modifier_of
note_keys-last_example =
    note_keys-last value value-IsInjective empty both_shifts VirtualKey.rshift false shift
      (omega arith) (omega arith) refl

inputs_of-translate_key_example :
    (vk : VirtualKey) × (value vk ≡ 65)
    × (inputs_of machine (translate value empty (key_raw true 65 30))
        ≡ keyboard_input vk (machine.scan_of vk % 2 ^ 16) false ∷ [])
inputs_of-translate_key_example =
    inputs_of-translate_key value machine empty true 65 30 value-IsInjective (omega arith) known_a

-- A monitor to the left of the primary one, one that is gone, and the primary one.
abbrev beside : MonitorInfoEx
beside = record {
  rc_monitor = record { left = negsuc 1279; top = pos 0; right = pos 0; bottom = pos 1024 };
  sz_device = 76 ∷ 0 ∷ 7 ∷ [];
  dw_flags = 0;
}

abbrev primary : MonitorInfoEx
primary = record {
  rc_monitor = record { left = pos 0; top = pos 0; right = pos 1920; bottom = pos 1080 };
  sz_device = 80 ∷ 0 ∷ [];
  dw_flags = 1;
}

local_screen_info-reaches_example :
    (s : ScreenInfo) × (local_screen_info
        (λ units. "monitor")
        "desk"
        true
        (some beside ∷ none ∷ some primary ∷ [])
      ≡ ok s)
    × (pos 1920 ≤ℤ negsuc 1279 +ℤ s.width)
    × (pos 1080 ≤ℤ pos 0 +ℤ s.height)
local_screen_info-reaches_example =
    local_screen_info-reaches (λ units. "monitor") "desk" (some beside ∷ none ∷ some primary ∷ []) 0
      2 beside primary (omega arith) refl refl
