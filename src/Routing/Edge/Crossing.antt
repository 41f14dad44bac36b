-- ===== src/Routing/Edge/Crossing.antt =====
-- Crossings of crates/daemon/src/edge.rs: when one happens and where the cursor is left.
use my_deskflow.Prelude.{
  ℕ, ◌-◌, ◌^◌, ◌<◌, ◌≤◌, ◌≡◌, ◌≢◌, refl, arith, Option, none, some, ◌∙◌, inl, inr, Option-cases,
  if◌then◌else◌, sym, ap,
}
use my_deskflow.Prelude.Int.{pos, ◌+ℤ◌, ◌-ℤ◌, ◌≤ℤ◌, leb_ℤ, wrap_i32}
use my_deskflow.Core.Screen.{Point, EdgeSide, top, bottom, left, right, ScreenId, neighbour_of}
use my_deskflow.Core.Event.{InputEvent, MouseEvent}
use my_deskflow.Routing.Edge.{
  EdgeDetector, local, remote, enter_remote, to_remote, cross_local_edge, warp_back_inside,
  entry_point, target, observe, sub_i32, enter, local_move, Observed,
}

-- A detector for a screen of `w` by `h` pixels, as the session makes it.
pub record IsScreen (w h : ℕ) (d : EdgeDetector) : Type 0 where
  pub width : d.local_width ≡ pos w
  pub height : d.local_height ≡ pos h
  pub some_width : 1 ≤ w
  pub some_height : 1 ≤ h
  pub width_fits : w < 2 ^ 31
  pub height_fits : h < 2 ^ 31
  pub strict : d.edge_threshold ≡ pos 1

-- The point lies on the outermost two pixels of a side, or beyond it.
abbrev pub Touches : ℕ → ℕ → EdgeSide → Point → Type 0
Touches w h left p = p.x ≤ℤ pos 1
Touches w h right p = pos w ≤ℤ pos 1 +ℤ p.x
Touches w h top p = p.y ≤ℤ pos 1
Touches w h bottom p = pos h ≤ℤ pos 1 +ℤ p.y

sub_i32_pos : (n k : ℕ) → k ≤ n → n < 2 ^ 31 → sub_i32 (pos n) (pos k) ≡ pos (n - k)
unfolding wrap_i32 ◌-ℤ◌
sub_i32_pos n k h fits = ground arith

-- The test of `cross_local_edge` over the pixels of the screen.
cross_at : ℕ → ℕ → Point → Option (EdgeSide × Point)
cross_at w h p =
    if leb_ℤ p.x (pos 1)
    then some (left, p)
    else if leb_ℤ (pos (w - 1)) p.x
    then some (right, p)
    else if leb_ℤ p.y (pos 1)
    then some (top, p)
    else if leb_ℤ (pos (h - 1)) p.y
    then some (bottom, p)
    else none

cross_local_edge-eq :
    (w h : ℕ) (d : EdgeDetector) (p : Point)
    → IsScreen w h d
    → cross_local_edge d p ≡ cross_at w h p
unfolding cross_local_edge cross_at
cross_local_edge-eq w h d p s =
    rw (s.width, s.height, s.strict)
      (rw (sub_i32_pos w 1 s.some_width s.width_fits)
        (rw (sub_i32_pos h 1 s.some_height s.height_fits) refl))

cross_at_sound :
    (w h : ℕ) (p q : Point) (side : EdgeSide)
    → cross_at w h p ≡ some (side, q)
    → (q ≡ p) × Touches w h side p
unfolding cross_at ◌+ℤ◌
cross_at_sound w h p q left e = (ground arith, ground arith)
cross_at_sound w h p q right e = (ground arith, ground arith)
cross_at_sound w h p q top e = (ground arith, ground arith)
cross_at_sound w h p q bottom e = (ground arith, ground arith)

cross_at_complete :
    (w h : ℕ) (p : Point) (side : EdgeSide)
    → 1 ≤ w
    → 1 ≤ h
    → Touches w h side p
    → cross_at w h p ≢ none
unfolding cross_at ◌+ℤ◌
cross_at_complete w h p left hw hh t = ground arith
cross_at_complete w h p right hw hh t = ground arith
cross_at_complete w h p top hw hh t = ground arith
cross_at_complete w h p bottom hw hh t = ground arith

warp_back_at :
    (w h : ℕ) (side : EdgeSide)
    → 4 ≤ w
    → 4 ≤ h
    → w < 2 ^ 31
    → h < 2 ^ 31
    → cross_at w h (warp_back_inside side (pos w) (pos h)) ≡ none
unfolding cross_at warp_back_inside
warp_back_at w h left hw hh fw fh = ground arith
warp_back_at w h right hw hh fw fh = rw (sub_i32_pos w 2 (omega arith) fw) (ground arith)
warp_back_at w h top hw hh fw fh = ground arith
warp_back_at w h bottom hw hh fw fh = rw (sub_i32_pos h 2 (omega arith) fh) (ground arith)

-- On a screen of at least 4 by 4 pixels, the point where the cursor is parked after a crossing at
-- any side is itself no crossing, so the parked cursor does not bounce.
pub warp_back_no_crossing :
    (w h : ℕ) (d : EdgeDetector) (side : EdgeSide)
    → IsScreen w h d
    → 4 ≤ w
    → 4 ≤ h
    → cross_local_edge d (warp_back_inside side d.local_width d.local_height) ≡ none
warp_back_no_crossing w h d side s hw hh =
    cross_local_edge-eq w h d (warp_back_inside side d.local_width d.local_height) s
    ∙ rw (s.width, s.height) (warp_back_at w h side hw hh s.width_fits s.height_fits)

-- What `observe` makes of a crossing to `screen` over `side` at the point `p`.
abbrev pub entered : EdgeDetector → EdgeSide → Point → ScreenId → Observed
entered d side p screen = (
  record d { route = remote screen; last_point = p },
  enter_remote screen (entry_point side p) (warp_back_inside side d.local_width d.local_height)
      d.modifiers,
  to_remote,
)

abbrev pub moved_to : Point → InputEvent
moved_to p = InputEvent.mouse (MouseEvent.move p.x p.y)

-- What a move does on a detector that routes to the local machine.
observe-local :
    (d : EdgeDetector) (p : Point)
    → d.route ≡ local
    → observe d (moved_to p) ≡ local_move (record d { last_point = p }) (cross_local_edge d p)
unfolding observe cross_local_edge
observe-local d p r = rw r

-- With an automatic peer every side has a neighbour.
target-auto :
    (d : EdgeDetector) (side : EdgeSide) (peer : ScreenId)
    → d.auto_peer ≡ some peer
    → (screen : ScreenId) × (target d side ≡ some screen)
unfolding target
target-auto d side peer auto = elim (Option-cases (neighbour_of d.layout d.local_id side)) [
  | inl e ↦ (peer, rw (e, auto) refl)
  | inr (screen, e) ↦ (screen, rw e refl)
]

module _ (w h : ℕ) (d : EdgeDetector) (p : Point) (s : IsScreen w h d) (r : d.route ≡ local) where
  observe_hit :
      (side : EdgeSide) (q : Point)
      → cross_local_edge d p ≡ some (side, q)
      → observe d (moved_to p) ≡ enter (record d { last_point = p }) side p (target d side)
  unfolding local_move target
  observe_hit side q e =
      let same = (cross_at_sound w h p q side (sym (cross_local_edge-eq w h d p s) ∙ e)).0 in
      observe-local d p r ∙ rw (e, same) refl

  side_touched :
      (side : EdgeSide) (q : Point) → cross_local_edge d p ≡ some (side, q) → Touches w h side p
  side_touched side q e = (cross_at_sound w h p q side (sym (cross_local_edge-eq w h d p s) ∙ e)).1

  -- A move that touches a side enters a remote screen over a side that it touches, whenever an
  -- automatic peer is set.
  pub observe-entered :
      (side : EdgeSide) (peer : ScreenId)
      → d.auto_peer ≡ some peer
      → Touches w h side p
      → (side' : EdgeSide) × (screen : ScreenId) × Touches w h side' p
        × (observe d (moved_to p) ≡ entered d side' p screen)
  unfolding enter
  observe-entered side peer auto t = elim (Option-cases (cross_local_edge d p)) [
    | inl quiet ↦ absurd (
        cross_at_complete w h p side s.some_width s.some_height t
          (sym (cross_local_edge-eq w h d p s) ∙ quiet))
    | inr ((side', q), e) ↦
        let (screen, found) = target-auto d side' peer auto in
        (side', screen, side_touched side' q e, observe_hit side' q e ∙ rw found refl)
  ]

  -- A move that touches a side enters a remote screen whenever an automatic peer is set.
  pub observe_enters :
      (side : EdgeSide) (peer : ScreenId)
      → d.auto_peer ≡ some peer
      → Touches w h side p
      → (screen : ScreenId) × ((observe d (moved_to p)).0.route ≡ remote screen)
  observe_enters side peer auto t =
      let (side', screen, touched, same) = observe-entered side peer auto t in
      (screen, ap (λ (o : Observed). o.0.route) same)
