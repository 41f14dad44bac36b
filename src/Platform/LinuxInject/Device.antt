-- ===== src/Platform/LinuxInject/Device.antt =====
-- `LinuxInject::new` of crates/platform/src/linux/inject.rs: the uinput device with the capabilities
-- that are declared on it before it is created. What the kernel answers to each call, and which keys
-- the input_linux crate lists, are parameters; a key is known by its code.
pub mod Declared
use my_deskflow.Prelude.{
  ℕ, String, Bool, true, false, ◌&&◌, ◌||◌, List, [], ◌∷◌, ◌==◌, if◌then◌else◌,
}
use my_deskflow.Core.Error.{Error, Result, ok, err, ◌>>=◌, map_err, platform}
use my_deskflow.Core.Screen.{Point}
use my_deskflow.Prelude.Int.{pos}
use my_deskflow.Platform.LinuxInject.{
  RelativeAxis, x_axis, y_axis, vertical_wheel, vertical_wheel_hi_res, horizontal_wheel,
  horizontal_wheel_hi_res,
}

abbrev pub Done : Type 0
Done = Unit

-- `EventKind`, by the kinds that are used.
pub data EventKind : Type 0 where
  key relative synchronize : EventKind

-- `ErrorKind::PermissionDenied`, and the other ways to fail to open a file.
pub data OpenError : Type 0 where
  permission_denied : OpenError
  other : String → OpenError

-- /dev/uinput, and `input_linux::Key`: the keys of `Key::iter`, `is_key` and `from_code`.
pub record UInput : Type 0 where
  pub open_file : Result OpenError Done
  pub set_evbit : EventKind → Result String Done
  pub set_keybit : ℕ → Result String Done
  pub set_relbit : RelativeAxis → Result String Done
  pub create : Result String Done
  pub keys : List ℕ
  pub is_key : ℕ → Bool
  pub from_code : ℕ → Bool

-- What the created device can emit, and `last_pos`.
pub record LinuxInject : Type 0 where
  pub keybits : List ℕ
  pub relbits : List RelativeAxis
  pub last_pos : Point

open_error : OpenError → Error
open_error permission_denied = platform "permission denied opening /dev/uinput"
open_error (other e) = platform e

abbrev pub is_ok : Result String Done → Bool
is_ok (ok a) = true
is_ok (err e) = false

-- BTN_LEFT, BTN_RIGHT, BTN_MIDDLE, BTN_BACK and BTN_FORWARD.
abbrev pub buttons : List ℕ
buttons = 272 ∷ 273 ∷ 274 ∷ 278 ∷ 277 ∷ []

abbrev pub axes : List RelativeAxis
axes =
    x_axis ∷ y_axis ∷ vertical_wheel ∷ horizontal_wheel ∷ vertical_wheel_hi_res
    ∷ horizontal_wheel_hi_res ∷ []

abbrev pub device : List ℕ → List RelativeAxis → LinuxInject
device keybits relbits = record {
  keybits = keybits;
  relbits = relbits;
  last_pos = record { x = pos 0; y = pos 0 };
}

module _ (u : UInput) where
  -- The loop over every key; a key that the kernel rejects is left out.
  enable_keys : List ℕ → List ℕ → List ℕ
  enable_keys [] bits = bits
  enable_keys (k ∷ ks) bits =
      enable_keys ks (if u.is_key k && is_ok (u.set_keybit k) then k ∷ bits else bits)

  enable_button : ℕ → List ℕ → Result Error (List ℕ)
  enable_button b bits =
      if u.from_code b
      then (map_err platform (u.set_keybit b) >>= (λ _. ok (b ∷ bits)))
      else ok bits

  -- The loop over the mouse buttons; a button that the kernel rejects is an error.
  enable_buttons : List ℕ → List ℕ → Result Error (List ℕ)
  unfolding enable_button
  enable_buttons [] bits = ok bits
  enable_buttons (b ∷ bs) bits = enable_button b bits >>= enable_buttons bs

  enable_axes : List RelativeAxis → List RelativeAxis → Result Error (List RelativeAxis)
  enable_axes [] bits = ok bits
  enable_axes (a ∷ as') bits = map_err platform (u.set_relbit a) >>= λ _. enable_axes as' (a ∷ bits)

  enable_kinds : List EventKind → Result Error Done
  enable_kinds [] = ok tt
  enable_kinds (k ∷ ks) = map_err platform (u.set_evbit k) >>= λ _. enable_kinds ks

  -- The axes, behind the keys, and the creation of the device.
  with_axes : List ℕ → Result Error LinuxInject
  with_axes keybits = enable_axes axes [] >>= λ relbits. ok (device keybits relbits)

  create_device : LinuxInject → Result Error LinuxInject
  create_device dev = map_err platform u.create >>= λ _. ok dev

  unfoldable pub new : Result Error LinuxInject
  unfolding open_error enable_keys enable_buttons enable_axes enable_kinds with_axes create_device
  new = map_err open_error u.open_file >>= λ _.
      enable_kinds (key ∷ relative ∷ synchronize ∷ []) >>= λ _.
      (enable_buttons buttons (enable_keys u.keys []) >>= with_axes) >>= create_device
