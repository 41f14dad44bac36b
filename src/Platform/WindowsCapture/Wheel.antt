-- ===== src/Platform/WindowsCapture/Wheel.antt =====
-- A wheel turn that crates/platform/src/windows/capture.rs takes, as linux/inject.rs replays it.
use my_deskflow.Prelude.{ℕ, suc, ◌*◌, ◌^◌, ◌<◌, ◌≡◌, false, [], ◌∷◌, arith}
use my_deskflow.Prelude.Int.{pos}
use my_deskflow.Core.Modifiers.{ModifierState}
use my_deskflow.Core.Screen.{Point}
use my_deskflow.Platform.WindowsKeymap.{VirtualKey}
use my_deskflow.Platform.WindowsCapture.{RawEvent, translate, wheel_delta}
use my_deskflow.Platform.LinuxInject.{
  inject_batch, rel_event, syn, vertical_wheel, vertical_wheel_hi_res,
}

-- The high word of `mouseData` is a positive turn.
wheel_delta-up : (turn : ℕ) → turn < 2 ^ 15 → wheel_delta (turn * 2 ^ 16) ≡ pos turn
wheel_delta-up turn lt = ground arith

-- A turn of 1 to 273 notches, which Windows reports as 120 for each, is replayed on Linux as 120
-- detents of the wheel for each, and as 14400 of its hundred-and-twentieths.
pub inject_batch-notches :
    (value : VirtualKey → ℕ) (m : ModifierState) (last : Point) (n : ℕ)
    → n < 273
    → (inject_batch last (
        translate value m (RawEvent.mouse_scroll false (wheel_delta (120 * suc n * 2 ^ 16))))).batch
      ≡ rel_event vertical_wheel (pos (120 * suc n))
        ∷ rel_event vertical_wheel_hi_res (pos (14400 * suc n))
        ∷ syn
        ∷ []
unfolding inject_batch translate
inject_batch-notches value m last n lt =
    rw (wheel_delta-up (120 * suc n) (omega arith)) (ground arith)
