-- ===== src/Tests/Routes.antt =====
-- The edge detector and the session of crates/daemon at concrete inputs.
use my_deskflow.Prelude.{◌≡◌, refl, true, none, some, List, [], ◌∷◌, arith, map, bit_and}
use my_deskflow.Prelude.Int.{ℤ, pos, ◌-ℤ◌}
use my_deskflow.Core.Screen.{Point, ScreenLayout}
use my_deskflow.Core.Modifiers.{contains}
use my_deskflow.Core.Event.{InputEvent, pressed, escape, a, usage}
use my_deskflow.Routing.Edge.{
  EdgeDetector, local, remote, leave_remote, new, set_auto_peer, force_local,
}
use my_deskflow.Routing.Edge.Crossing.{moved_to}
use my_deskflow.Routing.Edge.Trace.{observe_all, observe_all-remote}
use my_deskflow.Routing.Session.{
  Server, PeerHandle, captured, peer, disconnected, is_emergency, run,
}
use my_deskflow.Routing.Session.Routes.{capturing_after, is_remote, run-capturing}
use my_deskflow.Routing.Session.Peers.{disconnect_strands}
use my_deskflow.Routing.Session.Motion.{moved, moved-run, last_point}
use my_deskflow.Routing.Inbound.{resync_modifiers}
use my_deskflow.Routing.Inbound.Modifiers.{held_after, held_after-resync_modifiers}

abbrev no_layout : ScreenLayout
no_layout = record { screens = []; neighbours = [] }

-- A full-HD screen with an automatic peer, at home and away.
abbrev home : EdgeDetector
home = set_auto_peer (new 0 (pos 1920) (pos 1080) no_layout) (some 1)

abbrev away : EdgeDetector
away = record home { route = remote 1 }

abbrev laptop : PeerHandle
laptop = record { peer_id = 7; peer_name = "laptop" }

abbrev at : ℤ → ℤ → Point
at x y = record { x = x; y = y }

abbrev wander : List InputEvent
wander = moved_to (at (pos 1000) (pos 500)) ∷ moved_to (at (pos 0) (pos 0)) ∷ []

observe_all-remote_example :
    ((observe_all away wander).route ≡ remote 1)
    × ((force_local (observe_all away wander)).0.route ≡ local)
    × ((force_local (observe_all away wander)).1 ≡ leave_remote 1)
observe_all-remote_example = observe_all-remote away 1 wander refl

abbrev serving : Server
serving = record {
  edge = away;
  peers = laptop ∷ [];
  last_mouse = some (at (pos 1919) (pos 500));
  heartbeat_interval_ms = 2000;
}

abbrev panic : InputEvent
panic = InputEvent.key (record { code = escape; state = pressed; modifiers = 7; character = none })

panic_emergency : is_emergency panic ≡ true
unfolding is_emergency contains usage
panic_emergency = refl

run-capturing_example :
    capturing_after true (run serving (captured panic ∷ peer (disconnected 7) ∷ [])).1
    ≡ is_remote (run serving (captured panic ∷ peer (disconnected 7) ∷ [])).0.edge.route
run-capturing_example = run-capturing serving (captured panic ∷ peer (disconnected 7) ∷ [])

abbrev at_home : Server
at_home = record serving { edge = home }

abbrev key_a : InputEvent
key_a = InputEvent.key (record { code = a; state = pressed; modifiers = 0; character = none })

disconnect_strands_example :
    ((run serving (peer (disconnected 7) ∷ map captured wander)).1 ≡ [])
    × ((run serving (peer (disconnected 7) ∷ map captured wander)).0.edge.route ≡ remote 1)
unfolding is_emergency
disconnect_strands_example =
    disconnect_strands serving 1 7 wander refl (refl, tt) (refl, (refl, tt))

abbrev path : List Point
path = at (pos 1800) (pos 520) ∷ at (pos 1700) (pos 480) ∷ []

moved-run_example :
    moved (run serving (map captured (map moved_to path))).1
    ≡ (pos 1700 -ℤ pos 1919, pos 480 -ℤ pos 500)
unfolding last_point
moved-run_example =
    moved-run serving 1 laptop (at (pos 1919) (pos 500)) path refl refl refl (omega arith)
      (omega arith)

held_after-resync_modifiers_example :
    held_after 64 (resync_modifiers 0b10011) ≡ bit_and 0b10011 0b1111
held_after-resync_modifiers_example = held_after-resync_modifiers 64 0b10011 (omega arith)
