-- ===== src/Routing/Edge.antt =====
-- crates/daemon/src/edge.rs: the edge detector. A method on `&mut self` returns the new state.
-- An `i32` is an integer; a difference of two is wrapped to 32 bits, as in a release build.
pub mod Crossing
pub mod Trace
use my_deskflow.Prelude.{ℕ, suc, ◌/◌, Bool, Option, none, some, List, [], ◌∷◌, if◌then◌else◌}
use my_deskflow.Prelude.Int.{ℤ, pos, negsuc, ◌-ℤ◌, leb_ℤ, wrap_i32}
use my_deskflow.Core.Screen.{
  ScreenId, Point, EdgeSide, top, bottom, left, right, ScreenLayout, neighbour_of,
}
use my_deskflow.Core.Modifiers.{ModifierState, empty}
use my_deskflow.Core.Event.{InputEvent, MouseEvent, KeyEvent}

pub data Route : Type 0 where
  local : Route
  remote : ScreenId → Route

pub data RouteDecision : Type 0 where
  stay : RouteDecision
  enter_remote : ScreenId → Point → Point → ModifierState → RouteDecision
  leave_remote : ScreenId → RouteDecision

pub data ForwardTo : Type 0 where
  to_local to_remote : ForwardTo

pub record EdgeDetector : Type 0 where
  pub local_id : ScreenId  -- `local`
  pub local_width : ℤ  -- i32
  pub local_height : ℤ  -- i32
  pub layout : ScreenLayout
  pub route : Route
  pub last_point : Point
  pub modifiers : ModifierState
  pub edge_threshold : ℤ  -- i32
  pub auto_peer : Option ScreenId

-- `EdgeDetector::new`.
unfoldable pub new : ScreenId → ℤ → ℤ → ScreenLayout → EdgeDetector
new id width height layout = record {
  local_id = id;
  local_width = width;
  local_height = height;
  layout = layout;
  route = local;
  last_point = record { x = pos 0; y = pos 0 };
  modifiers = empty;
  edge_threshold = pos 1;
  auto_peer = none;
}

unfoldable pub set_auto_peer : EdgeDetector → Option ScreenId → EdgeDetector
set_auto_peer d peer = record d { auto_peer = peer }

unfoldable pub set_modifiers : EdgeDetector → ModifierState → EdgeDetector
set_modifiers d m = record d { modifiers = m }

unfoldable pub force_local : EdgeDetector → EdgeDetector × RouteDecision
force_local d = elim d.route [
  | local ↦ (d, stay)
  | remote screen ↦ (record d { route = local }, leave_remote screen)
]

-- `n / 2` on an `i32`, which rounds towards zero.
abbrev pub half : ℤ → ℤ
half (pos n) = pos (n / 2)
half (negsuc n) = elim (suc n / 2) [ ℕ.zero ↦ pos 0 | ℕ.suc k ↦ negsuc k ]

-- `a - b` on `i32`.
abbrev pub sub_i32 : ℤ → ℤ → ℤ
sub_i32 a b = wrap_i32 (a -ℤ b)

unfoldable pub cross_local_edge : EdgeDetector → Point → Option (EdgeSide × Point)
cross_local_edge d p =
    if leb_ℤ p.x d.edge_threshold
    then some (left, p)
    else if leb_ℤ (sub_i32 d.local_width d.edge_threshold) p.x
    then some (right, p)
    else if leb_ℤ p.y d.edge_threshold
    then some (top, p)
    else if leb_ℤ (sub_i32 d.local_height d.edge_threshold) p.y
    then some (bottom, p)
    else none

unfoldable pub entry_point : EdgeSide → Point → Point
entry_point left p = record { x = pos 32000; y = p.y }
entry_point right p = record { x = pos 0; y = p.y }
entry_point top p = record { x = p.x; y = pos 32000 }
entry_point bottom p = record { x = p.x; y = pos 0 }

unfoldable pub warp_back_inside : EdgeSide → ℤ → ℤ → Point
warp_back_inside left w h = record { x = pos 2; y = half h }
warp_back_inside right w h = record { x = sub_i32 w (pos 2); y = half h }
warp_back_inside top w h = record { x = half w; y = pos 2 }
warp_back_inside bottom w h = record { x = half w; y = sub_i32 h (pos 2) }

-- `Option::or`.
abbrev pub or_else : Option ScreenId → Option ScreenId → Option ScreenId
or_else none o = o
or_else (some s) o = some s

-- The explicit neighbour on a side, else the auto peer.
unfoldable pub target : EdgeDetector → EdgeSide → Option ScreenId
target d side = or_else (neighbour_of d.layout d.local_id side) d.auto_peer

abbrev pub Observed : Type 0
Observed = EdgeDetector × RouteDecision × ForwardTo

-- What `observe` does at a crossing, once the neighbour is resolved.
pub enter : EdgeDetector → EdgeSide → Point → Option ScreenId → Observed
enter d side p none = (d, stay, to_local)
enter d side p (some screen) = (
  record d { route = remote screen },
  enter_remote screen (entry_point side p) (warp_back_inside side d.local_width d.local_height)
      d.modifiers,
  to_remote,
)

pub local_move : EdgeDetector → Option (EdgeSide × Point) → Observed
unfolding enter target
local_move d none = (d, stay, to_local)
local_move d (some (side, p)) = enter d side p (target d side)

-- The outer `match`: a move of the mouse, or any other event.
observe_move : EdgeDetector → Point → Route → Observed
unfolding local_move cross_local_edge
observe_move d p local = local_move d (cross_local_edge d p)
observe_move d p (remote _) = (d, stay, to_remote)

observe_other : EdgeDetector → Route → Observed
observe_other d local = (d, stay, to_local)
observe_other d (remote _) = (d, stay, to_remote)

-- The modifiers that an event carries are recorded first.
abbrev pub note_modifiers : EdgeDetector → InputEvent → EdgeDetector
note_modifiers d (InputEvent.key k) = record d { modifiers = k.modifiers }
note_modifiers d (InputEvent.modifier_sync m) = record d { modifiers = m }
note_modifiers d _ = d

dispatch : EdgeDetector → InputEvent → Observed
unfolding observe_move observe_other
dispatch d (InputEvent.mouse (MouseEvent.move x y)) =
    observe_move (record d { last_point = record { x = x; y = y } }) (record { x = x; y = y })
      d.route
dispatch d _ = observe_other d d.route

unfoldable pub observe : EdgeDetector → InputEvent → Observed
unfolding dispatch
observe d event = dispatch (note_modifiers d event) event
