-- ===== src/Core/Screen.antt =====
-- crates/core/src/screen.rs and id.rs: identifiers, points, and how screens are arranged.
use my_deskflow.Prelude.{
  ℕ, String, Bool, true, false, ◌&&◌, Option, none, some, List, [], ◌∷◌, ◌==◌, if◌then◌else◌,
}
use my_deskflow.Prelude.Int.{ℤ}

-- `PeerId(Uuid)`: the UUID as the number that its 128 bits spell.
abbrev pub PeerId : Type 0
PeerId = ℕ

-- `ScreenId(u32)`.
abbrev pub ScreenId : Type 0
ScreenId = ℕ

pub record Point : Type 0 where
  pub x : ℤ  -- i32
  pub y : ℤ  -- i32

pub data EdgeSide : Type 0 where
  top bottom left right : EdgeSide

unfoldable pub opposite : EdgeSide → EdgeSide
opposite top = bottom
opposite bottom = top
opposite left = right
opposite right = left

-- `PartialEq` of `EdgeSide`.
abbrev pub same_side : EdgeSide → EdgeSide → Bool
same_side top top = true
same_side bottom bottom = true
same_side left left = true
same_side right right = true
same_side _ _ = false

pub record ScreenInfo : Type 0 where
  pub id : ScreenId
  pub name : String
  pub width : ℤ  -- i32
  pub height : ℤ  -- i32

pub record Neighbour : Type 0 where
  pub from : ScreenId
  pub side : EdgeSide
  pub to : ScreenId

pub record ScreenLayout : Type 0 where
  pub screens : List ScreenInfo
  pub neighbours : List Neighbour

-- `iter().find(…).map(|n| n.to)`.
unfoldable pub find_neighbour : List Neighbour → ScreenId → EdgeSide → Option ScreenId
find_neighbour [] from side = none
find_neighbour (n ∷ ns) from side =
    if n.from == from && same_side n.side side then some n.to else find_neighbour ns from side

unfoldable pub neighbour_of : ScreenLayout → ScreenId → EdgeSide → Option ScreenId
unfolding find_neighbour
neighbour_of layout from side = find_neighbour layout.neighbours from side
