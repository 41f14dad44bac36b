-- ===== src/Platform/Screens/Monitors/Reach.antt =====
-- The screen of crates/platform/src/windows/mod.rs against the rectangles that the system answers.
use my_deskflow.Prelude.{
  ℕ, zero, suc, get_elem?, ◌≡◌, refl, ap, subst, String, true, Option, none, some, List, [], ◌∷◌,
  arith, All,
}
use my_deskflow.Prelude.Int.{
  ℤ, pos, negsuc, ◌+ℤ◌, ◌-ℤ◌, ◌≤ℤ◌, wrap_i32_of_IsI32, IsI32, -ℤ_parts, +ℤ_parts, eq_of_parts,
}
use my_deskflow.Core.Error.{ok}
use my_deskflow.Core.Screen.{ScreenInfo}
use my_deskflow.Routing.Edge.{sub_i32}
use my_deskflow.Platform.Screens
use my_deskflow.Platform.Screens.{MonitorInfo}
use my_deskflow.Platform.Screens.Cover.{IsModest, IsModestMonitor, local_screen_info-covers}
use my_deskflow.Platform.Screens.Monitors.{
  Rect, MonitorInfoEx, Decode, entry, collected, enumerate, local_screen_info,
}

-- A side from a start to an end, both within 2^28 of the origin.
abbrev pub IsNear : ℤ → ℤ → Type 0
IsNear lo hi = (negsuc 268435455 ≤ℤ lo) × (lo ≤ℤ hi) × (hi ≤ℤ pos 268435456)

abbrev pub IsNearRect : Rect → Type 0
IsNearRect r = IsNear r.left r.right × IsNear r.top r.bottom

abbrev pub IsNearAnswer : Option MonitorInfoEx → Type 0
IsNearAnswer none = Unit {0}
IsNearAnswer (some info) = IsNearRect info.rc_monitor

near-IsI32 : (lo hi : ℤ) → IsNear lo hi → IsI32 (hi -ℤ lo)
unfolding ◌-ℤ◌
near-IsI32 (pos a) (pos b) h = ground arith
near-IsI32 (negsuc a) (pos b) h = ground arith
near-IsI32 (pos a) (negsuc b) h = ground arith
near-IsI32 (negsuc a) (negsuc b) h = ground arith

sub_i32-near : (lo hi : ℤ) → IsNear lo hi → sub_i32 hi lo ≡ hi -ℤ lo
sub_i32-near lo hi h = wrap_i32_of_IsI32 (hi -ℤ lo) (near-IsI32 lo hi h)

near-IsModest : (lo hi : ℤ) → IsNear lo hi → IsModest lo (sub_i32 hi lo)
near-IsModest lo hi h = rw (sub_i32-near lo hi h) (omega (arith, -ℤ_parts hi lo))

ends_at : (lo hi : ℤ) → IsNear lo hi → lo +ℤ sub_i32 hi lo ≡ hi
ends_at lo hi h =
    rw (sub_i32-near lo hi h)
      (eq_of_parts (lo +ℤ (hi -ℤ lo)) hi (omega (arith, -ℤ_parts hi lo, +ℤ_parts lo (hi -ℤ lo))))

entry-IsModest :
    (decode : Decode) (info : MonitorInfoEx)
    → IsNearRect info.rc_monitor
    → IsModestMonitor (entry decode info)
unfolding entry
entry-IsModest decode info (across, down) = (
  near-IsModest info.rc_monitor.left info.rc_monitor.right across,
  near-IsModest info.rc_monitor.top info.rc_monitor.bottom down,
)

collected-IsModest :
    (decode : Decode) (answers : List (Option MonitorInfoEx))
    → All IsNearAnswer answers
    → All IsModestMonitor (collected decode answers)
unfolding collected
collected-IsModest decode [] all = tt
collected-IsModest decode (none ∷ answers) all = collected-IsModest decode answers all.1
collected-IsModest decode (some info ∷ answers) all =
    (entry-IsModest decode info all.0, collected-IsModest decode answers all.1)

-- A monitor for which the system answers is in the list.
collected-get_elem? :
    (decode : Decode) (answers : List (Option MonitorInfoEx)) (i : ℕ) (info : MonitorInfoEx)
    → get_elem? answers i ≡ some (some info)
    → (k : ℕ) × (get_elem? (collected decode answers) k ≡ some (entry decode info))
unfolding collected
collected-get_elem? decode [] i info h = absurd (cc)
collected-get_elem? decode (none ∷ answers) zero info h = absurd (cc)
collected-get_elem? decode (none ∷ answers) (suc i) info h =
    collected-get_elem? decode answers i info h
collected-get_elem? decode (some o ∷ answers) zero info h =
    let same : o ≡ info = cc in (0, ap (λ x. some (entry decode x)) same)
collected-get_elem? decode (some o ∷ answers) (suc i) info h =
    let (k, found) = collected-get_elem? decode answers i info h in (suc k, found)

near_at :
    (answers : List (Option MonitorInfoEx)) (i : ℕ) (info : MonitorInfoEx)
    → All IsNearAnswer answers
    → get_elem? answers i ≡ some (some info)
    → IsNearRect info.rc_monitor
near_at [] i info all h = absurd (cc)
near_at (a ∷ answers) zero info all h =
    let same : a ≡ some info = cc in subst IsNearAnswer same all.0
near_at (a ∷ answers) (suc i) info all h = near_at answers i info all.1 h

-- Where the system enumerates monitors, each answered with a rectangle within 2^28 of the origin
-- or not at all, there is a local screen: from the left of any answered rectangle to the right of
-- any is at most its width, and from the top of any to the bottom of any at most its height.
pub local_screen_info-reaches :
    (decode : Decode) (hostname : String) (answers : List (Option MonitorInfoEx)) (i j : ℕ)
    (m n : MonitorInfoEx)
    → All IsNearAnswer answers
    → get_elem? answers i ≡ some (some m)
    → get_elem? answers j ≡ some (some n)
    → (s : ScreenInfo) × (local_screen_info decode hostname true answers ≡ ok s)
      × (n.rc_monitor.right ≤ℤ m.rc_monitor.left +ℤ s.width)
      × (n.rc_monitor.bottom ≤ℤ m.rc_monitor.top +ℤ s.height)
unfolding local_screen_info enumerate entry
local_screen_info-reaches decode hostname answers i j m n all hm hn =
    let monitors = collected decode answers in
    let (k, at_k) = collected-get_elem? decode answers i m hm in
    let (l, at_l) = collected-get_elem? decode answers j n hn in
    let (across, down) = near_at answers j n all hn in
    let (wide, high) =
      local_screen_info-covers hostname monitors k l (entry decode m) (entry decode n)
        (collected-IsModest decode answers all) at_k at_l in
    (
      Screens.local_screen_info hostname monitors,
      refl,
      rw (ends_at n.rc_monitor.left n.rc_monitor.right across) at wide,
      rw (ends_at n.rc_monitor.top n.rc_monitor.bottom down) at high,
    )
