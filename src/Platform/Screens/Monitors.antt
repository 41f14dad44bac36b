-- ===== src/Platform/Screens/Monitors.antt =====
-- crates/platform/src/windows/monitor.rs: the monitors that the system enumerates, and the screen
-- that crates/platform/src/windows/mod.rs makes of them. What the system answers is an argument.
pub mod Reach
use my_deskflow.Prelude.{
  ℕ, ◌%◌, String, Bool, Option, none, some, List, [], ◌∷◌, ◌++◌, ◌==◌, if◌then◌else◌,
}
use my_deskflow.Prelude.Int.{ℤ}
use my_deskflow.Core.Error.{Error, Result, ok, err, ◌>>=◌, platform}
use my_deskflow.Core.Screen.{ScreenInfo}
use my_deskflow.Routing.Edge.{sub_i32}
use my_deskflow.Platform.Screens
use my_deskflow.Platform.Screens.{MonitorInfo}

pub record Rect : Type 0 where
  pub left : ℤ
  pub top : ℤ
  pub right : ℤ
  pub bottom : ℤ

-- What `GetMonitorInfoW` fills in: `szDevice` as UTF-16 units.
pub record MonitorInfoEx : Type 0 where
  pub rc_monitor : Rect
  pub sz_device : List ℕ
  pub dw_flags : ℕ

-- The first part of a split at zeros.
unfoldable pub until_zero : List ℕ → List ℕ
until_zero [] = []
until_zero (c ∷ cs) = let rest = until_zero cs in if c == 0 then [] else c ∷ rest

-- `String::from_utf16_lossy`.
abbrev pub Decode : Type 0
Decode = List ℕ → String

unfoldable pub entry : Decode → MonitorInfoEx → MonitorInfo
entry decode info = record {
  name = decode (until_zero info.sz_device);
  x = info.rc_monitor.left;
  y = info.rc_monitor.top;
  width = sub_i32 info.rc_monitor.right info.rc_monitor.left;
  height = sub_i32 info.rc_monitor.bottom info.rc_monitor.top;
  primary = info.dw_flags % 2 == 1;
}

-- What a call of `monitor_enum_proc` pushes: nothing where `GetMonitorInfoW` fails.
abbrev pub monitor_enum_proc : Decode → Option MonitorInfoEx → List MonitorInfo
monitor_enum_proc decode none = []
monitor_enum_proc decode (some info) = entry decode info ∷ []

unfoldable pub collected : Decode → List (Option MonitorInfoEx) → List MonitorInfo
collected decode [] = []
collected decode (a ∷ answers) = monitor_enum_proc decode a ++ collected decode answers

-- `enumerate`, by whether `EnumDisplayMonitors` succeeds and what the callback meets.
unfoldable pub enumerate :
    Decode → Bool → List (Option MonitorInfoEx) → Result Error (List MonitorInfo)
enumerate decode succeeds answers =
    if succeeds then ok (collected decode answers) else err (platform "EnumDisplayMonitors failed")

unfoldable pub local_screen_info :
    Decode → String → Bool → List (Option MonitorInfoEx) → Result Error ScreenInfo
local_screen_info decode hostname succeeds answers = do
  monitors ← enumerate decode succeeds answers
  ok (Screens.local_screen_info hostname monitors)
