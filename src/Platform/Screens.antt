-- ===== src/Platform/Screens.antt =====
-- crates/platform/src/windows/mod.rs and linux/mod.rs: the one screen that stands for the monitors.
-- Sums of `i32` wrap, as they do in a release build.
pub mod Cover
pub mod Monitors
use my_deskflow.Prelude.{
  ℕ, ◌+◌, ◌≤◌, ◌≡◌, refl, String, Bool, true, false, Option, none, some, List, [], ◌∷◌, arith,
  if◌then◌else◌, All,
}
use my_deskflow.Prelude.Int.{
  ℤ, pos, negsuc, pos_part, neg_part, ◌+ℤ◌, ◌-ℤ◌, ◌≤ℤ◌, leb_ℤ, wrap_i32, IsI32, wrap_i32_of_IsI32,
  int_laws,
}
use my_deskflow.Core.Screen.{ScreenInfo, Point, EdgeSide, left}
use my_deskflow.Routing.Edge.{sub_i32}

pub record MonitorInfo : Type 0 where
  pub name : String
  pub x : ℤ
  pub y : ℤ
  pub width : ℤ
  pub height : ℤ
  pub primary : Bool

abbrev pub min_ℤ : ℤ → ℤ → ℤ
min_ℤ a b = if leb_ℤ a b then a else b

abbrev pub max_ℤ : ℤ → ℤ → ℤ
max_ℤ a b = if leb_ℤ a b then b else a

-- The tuple that the fold carries.
pub record Bounds : Type 0 where
  pub min_x : ℤ
  pub min_y : ℤ
  pub max_x : ℤ
  pub max_y : ℤ

abbrev pub i32_max : ℤ
i32_max = pos 2147483647

abbrev pub i32_min : ℤ
i32_min = negsuc 2147483647

abbrev pub add_i32 : ℤ → ℤ → ℤ
add_i32 a b = wrap_i32 (a +ℤ b)

-- One step of the fold.
unfoldable pub widen : Bounds → MonitorInfo → Bounds
widen b m = record {
  min_x = min_ℤ b.min_x m.x;
  min_y = min_ℤ b.min_y m.y;
  max_x = max_ℤ b.max_x (add_i32 m.x m.width);
  max_y = max_ℤ b.max_y (add_i32 m.y m.height);
}

unfoldable pub bounds_from : Bounds → List MonitorInfo → Bounds
bounds_from b [] = b
bounds_from b (m ∷ ms) = bounds_from (widen b m) ms

abbrev pub no_bounds : Bounds
no_bounds = record { min_x = i32_max; min_y = i32_max; max_x = i32_min; max_y = i32_min }

-- `(max - min).max(0)`.
abbrev pub extent : ℤ → ℤ → ℤ
extent lo hi = max_ℤ (sub_i32 hi lo) (pos 0)

-- `local_screen_info`, with the host's name.
unfoldable pub local_screen_info : String → List MonitorInfo → ScreenInfo
local_screen_info hostname [] = record { id = 0; name = hostname; width = pos 0; height = pos 0 }
local_screen_info hostname (m ∷ ms) =
    let b = bounds_from no_bounds (m ∷ ms) in
    record {
      id = 0;
      name = hostname;
      width = extent b.min_x b.max_x;
      height = extent b.min_y b.max_y;
    }
