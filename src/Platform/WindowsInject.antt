-- ===== src/Platform/WindowsInject.antt =====
-- crates/platform/src/windows/inject.rs: from an input event to the records that `SendInput` gets.
-- What the system answers is a parameter: how many records it took, its metrics, and the scan code
-- of a virtual key. The flags that the code joins by `|` are a list.
pub mod Pointer
pub mod Keys
use my_deskflow.Prelude.{
  ℕ, zero, suc, ◌-◌, ◌*◌, ◌/◌, ◌%◌, ◌^◌, String, Bool, true, false, not, Option, none, some, List,
  [], ◌∷◌, ◌++◌, map, length, ◌==◌, if◌then◌else◌,
}
use my_deskflow.Prelude.Int.{ℤ, pos, negsuc, wrap_i32, eqb_ℤ}
use my_deskflow.Core.Error.{Error, Result, ok, err, platform}
use my_deskflow.Core.Event.{
  InputEvent, MouseEvent, Button, left, right, middle, back, forward, other, KeyEvent, KeyState,
  pressed, released,
}
use my_deskflow.Platform.WindowsKeymap.{VirtualKey, keycode_to_vk}

pub data MouseFlag : Type 0 where
  moved absolute virtualdesk leftdown leftup rightdown rightup middledown middleup : MouseFlag
  xdown xup wheel hwheel : MouseFlag

-- `INPUT`, without the fields that are always zero.
pub data Input : Type 0 where
  mouse_input : ℤ → ℤ → ℕ → List MouseFlag → Input  -- dx, dy, mouseData, dwFlags
  keyboard_input : VirtualKey → ℕ → Bool → Input  -- wVk, wScan, KEYEVENTF_KEYUP

-- What the system answers.
pub record System : Type 0 where
  pub virtual_w : ℤ  -- an i32
  pub virtual_h : ℤ
  pub scan_of : VirtualKey → ℕ  -- MapVirtualKeyW
  pub send_input : List Input → ℕ
  pub message : ℕ → ℕ → String  -- "SendInput wrote {} of {}"

-- The quotient of integers, which Rust rounds towards zero, by a positive number.
unfoldable pub quotient : ℤ → ℕ → ℤ
quotient (pos a) w = pos (a / w)
quotient (negsuc a) w = elim (suc a / w) [ zero ↦ pos 0 | suc q ↦ negsuc q ]

abbrev pub times : ℤ → ℕ → ℤ
times (pos a) k = pos (a * k)
times (negsuc a) k = elim (suc a * k) [ zero ↦ pos 0 | suc q ↦ negsuc q ]

-- `((v as i64 * 65535) / size as i64) as i32`, where the size is positive.
unfoldable pub normalized : ℤ → ℤ → ℤ
unfolding quotient
normalized (pos (suc size)) v = wrap_i32 (quotient (times v 65535) (suc size))
normalized _ v = pos 0

unfoldable pub move_absolute : System → ℤ → ℤ → List Input
move_absolute s x y =
    mouse_input (normalized s.virtual_w x) (normalized s.virtual_h y) 0
      (MouseFlag.moved ∷ MouseFlag.absolute ∷ MouseFlag.virtualdesk ∷ [])
    ∷ []

unfoldable pub mouse_button : Button → KeyState → List Input
mouse_button left pressed = mouse_input (pos 0) (pos 0) 0 (MouseFlag.leftdown ∷ []) ∷ []
mouse_button left released = mouse_input (pos 0) (pos 0) 0 (MouseFlag.leftup ∷ []) ∷ []
mouse_button right pressed = mouse_input (pos 0) (pos 0) 0 (MouseFlag.rightdown ∷ []) ∷ []
mouse_button right released = mouse_input (pos 0) (pos 0) 0 (MouseFlag.rightup ∷ []) ∷ []
mouse_button middle pressed = mouse_input (pos 0) (pos 0) 0 (MouseFlag.middledown ∷ []) ∷ []
mouse_button middle released = mouse_input (pos 0) (pos 0) 0 (MouseFlag.middleup ∷ []) ∷ []
mouse_button back pressed = mouse_input (pos 0) (pos 0) 1 (MouseFlag.xdown ∷ []) ∷ []
mouse_button back released = mouse_input (pos 0) (pos 0) 1 (MouseFlag.xup ∷ []) ∷ []
mouse_button forward pressed = mouse_input (pos 0) (pos 0) 2 (MouseFlag.xdown ∷ []) ∷ []
mouse_button forward released = mouse_input (pos 0) (pos 0) 2 (MouseFlag.xup ∷ []) ∷ []
mouse_button (other n) state = []

-- `delta as i32 as u32`, of an i16.
abbrev pub as_u32 : ℤ → ℕ
as_u32 (pos n) = n
as_u32 (negsuc n) = 2 ^ 32 - 1 - n

abbrev pub turn : MouseFlag → ℤ → List Input
turn flag delta =
    if eqb_ℤ delta (pos 0) then [] else mouse_input (pos 0) (pos 0) (as_u32 delta) (flag ∷ []) ∷ []

unfoldable pub mouse_scroll : ℤ → ℤ → List Input
mouse_scroll horizontal vertical = turn MouseFlag.wheel vertical ++ turn MouseFlag.hwheel horizontal

unfoldable pub key_vk : System → VirtualKey → Bool → List Input
key_vk s vk down = keyboard_input vk (s.scan_of vk % 2 ^ 16) (not down) ∷ []

abbrev pub is_pressed : KeyState → Bool
is_pressed pressed = true
is_pressed released = false

unfoldable pub key_event : System → KeyEvent → List Input
key_event s k = elim (keycode_to_vk k.code) [
  | none ↦ []
  | some vk ↦ key_vk s vk (is_pressed k.state)
]

-- The records of an event; none where the code returns before it sends.
unfoldable pub inputs_of : System → InputEvent → List Input
inputs_of s (InputEvent.mouse (MouseEvent.move x y)) = move_absolute s x y
inputs_of s (InputEvent.mouse (MouseEvent.move_relative dx dy)) =
    mouse_input dx dy 0 (MouseFlag.moved ∷ []) ∷ []
inputs_of s (InputEvent.mouse (MouseEvent.button b state)) = mouse_button b state
inputs_of s (InputEvent.mouse (MouseEvent.scroll d)) = mouse_scroll d.horizontal d.vertical
inputs_of s (InputEvent.key k) = key_event s k
inputs_of s _ = []

-- `WindowsInject::send`.
unfoldable pub send : System → List Input → Result Error (Unit {0})
send s inputs =
    if s.send_input inputs == length inputs
    then ok tt
    else err (platform (s.message (s.send_input inputs) (length inputs)))

-- Nothing is sent if there is no record.
abbrev pub send_some : System → List Input → Result Error (Unit {0})
send_some s [] = ok tt
send_some s (input ∷ inputs) = send s (input ∷ inputs)

unfoldable pub inject : System → InputEvent → Result Error (Unit {0})
inject s e = send_some s (inputs_of s e)

-- `release_all_modifiers`, by the records that it sends, each on its own; errors are dropped.
unfoldable pub release_all_modifiers : System → List (List Input)
release_all_modifiers s =
    map (λ vk. key_vk s vk false)
      (VirtualKey.lshift ∷ VirtualKey.rshift ∷ VirtualKey.lcontrol ∷ VirtualKey.rcontrol
        ∷ VirtualKey.lmenu ∷ VirtualKey.rmenu ∷ VirtualKey.lwin ∷ VirtualKey.rwin ∷ [])
