-- ===== src/Platform/LinuxInject/Keys.antt =====
-- Keys in crates/platform/src/linux/inject.rs.
use my_deskflow.Prelude.{
  ℕ, ◌≤◌, ◌≡◌, arith, Bool, false, not, some, List, [], ◌∷◌, ◌==◌, if◌then◌else◌,
}
use my_deskflow.Prelude.Int.{pos, eqb_ℤ}
use my_deskflow.Core.Event.{KeyCode, usage}
use my_deskflow.Platform.LinuxInject.{
  EvdevEvent, key_event_raw, hid_to_evdev, release_all_modifiers,
}

-- Whether the device holds a key after a batch, if it held it before or not.
abbrev pub held_after : Bool → ℕ → List EvdevEvent → Bool
held_after held code [] = held
held_after held code (key_event_raw k v ∷ es) =
    held_after (if k == code then not (eqb_ℤ v (pos 0)) else held) code es
held_after held code (_ ∷ es) = held_after held code es

-- Two keys with the same evdev code have the same usage number.
pub hid_to_evdev-injective :
    (key key' : KeyCode) (code : ℕ)
    → hid_to_evdev key ≡ some code
    → hid_to_evdev key' ≡ some code
    → usage key ≡ usage key'
unfolding hid_to_evdev
hid_to_evdev-injective key key' code h k = ground arith

modifier_code :
    (key : KeyCode) (code : ℕ)
    → 224 ≤ usage key
    → hid_to_evdev key ≡ some code
    → (232 ≤ code) × (code ≤ 239)
unfolding hid_to_evdev
modifier_code key code h k = (ground arith, ground arith)

-- Whatever the device held, `release_all_modifiers` leaves it with no modifier key that `inject`
-- could have pressed.
pub release_all_modifiers-releases :
    (held : Bool) (key : KeyCode) (code : ℕ)
    → 224 ≤ usage key
    → hid_to_evdev key ≡ some code
    → held_after held code release_all_modifiers ≡ false
unfolding release_all_modifiers usage
release_all_modifiers-releases held key code h k =
    let range = modifier_code key code h k in ground arith
