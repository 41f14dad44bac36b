-- ===== src/Platform/Idle.antt =====
-- crates/platform/src/linux/mod.rs and stub.rs: the backends that capture or inject nothing.
use my_deskflow.Prelude.{Bool, false}
use my_deskflow.Prelude.Int.{pos}
use my_deskflow.Core.Error.{Error, Result, ok, err, platform}
use my_deskflow.Core.Screen.{Point, ScreenInfo}
use my_deskflow.Core.Event.{InputEvent}

-- `LinuxCapture`, by its flag.
pub record LinuxCapture : Type 0 where
  pub capturing : Bool

-- The methods of the trait `Capture`, on a state.
pub record Capture (S : Type 0) : Type 0 where
  pub start : S → Result Error S
  pub stop : S → Result Error S
  pub set_capturing : Bool → S → S
  pub cursor_position : S → Result Error Point
  pub warp_cursor : Point → S → Result Error S

abbrev pub linux_capture : Capture LinuxCapture
linux_capture = record {
  start = λ s. ok s;
  stop = λ s. ok (record { capturing = false });
  set_capturing = λ capturing s. record { capturing = capturing };
  cursor_position = λ s. err (platform "linux cursor query not yet implemented");
  warp_cursor = λ p s. err (platform "linux warp_cursor not yet implemented");
}

abbrev pub stub_capture : Capture (Unit {0})
stub_capture = record {
  start = λ s. err (platform "stub: capture unsupported");
  stop = λ s. ok s;
  set_capturing = λ capturing s. s;
  cursor_position = λ s. ok (record { x = pos 0; y = pos 0 });
  warp_cursor = λ p s. ok s;
}

-- The methods of the trait `Inject`.
pub record Inject : Type 0 where
  pub inject : InputEvent → Result Error (Unit {0})
  pub release_all_modifiers : Result Error (Unit {0})

abbrev pub null_inject : Inject
null_inject = record { inject = λ e. ok tt; release_all_modifiers = ok tt }

abbrev pub stub_inject : Inject
stub_inject = record {
  inject = λ e. err (platform "stub: inject unsupported");
  release_all_modifiers = ok tt;
}

abbrev pub stub_screen_info : ScreenInfo
stub_screen_info = record { id = 0; name = "stub"; width = pos 0; height = pos 0 }
