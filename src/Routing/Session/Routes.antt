-- ===== src/Routing/Session/Routes.antt =====
-- The capture side of crates/daemon/src/session.rs: the emergency hotkey, the capture flag, and
-- what leaves the machine.
use my_deskflow.Prelude.{
  ◌≡◌, ◌≢◌, refl, ap, ◌∙◌, Bool, true, false, arith, none, some, List, [], ◌∷◌, ◌++◌,
}
use my_deskflow.Prelude.Int.{ℤ}
use my_deskflow.Core.Screen.{ScreenId}
use my_deskflow.Core.Event.{InputEvent, MouseEvent}
use my_deskflow.Protocol.Message.{from_input}
use my_deskflow.Routing.Edge.{Route, local, remote, observe, force_local, set_auto_peer}
use my_deskflow.Routing.Session.{
  Server, Effect, PeerHandle, Input, ServerEvent, try_send, set_capturing, captured, peer,
  drain_step, apply_decision, is_emergency, peer_step, step, run, first,
}

-- The capture flag after some effects.
pub capturing_after : Bool → List Effect → Bool
capturing_after b [] = b
capturing_after b (set_capturing c ∷ es) = capturing_after c es
capturing_after b (_ ∷ es) = capturing_after b es

abbrev pub is_remote : Route → Bool
is_remote local = false
is_remote (remote _) = true

capturing_after-append :
    (b : Bool) (xs ys : List Effect)
    → capturing_after b (xs ++ ys) ≡ capturing_after (capturing_after b xs) ys
unfolding capturing_after
capturing_after-append b [] ys = refl
capturing_after-append b (set_capturing c ∷ xs) ys = capturing_after-append c xs ys
capturing_after-append b (x ∷ xs) ys = capturing_after-append b xs ys

-- The emergency hotkey brings the route home from wherever it is, forgets the last position and
-- leaves capturing off if it was on exactly while remote.
pub drain_step-emergency :
    (s : Server) (e : InputEvent)
    → is_emergency e ≡ true
    → ((drain_step s e).0.edge.route ≡ local)
      × ((drain_step s e).0.last_mouse ≡ none)
      × (capturing_after (is_remote s.edge.route) (drain_step s e).1 ≡ false)
unfolding drain_step force_local apply_decision capturing_after
drain_step-emergency s e h = (ground arith, ground arith, ground arith)

drain_step-capturing :
    (s : Server) (e : InputEvent)
    → capturing_after (is_remote s.edge.route) (drain_step s e).1
      ≡ is_remote (drain_step s e).0.edge.route
unfolding drain_step force_local apply_decision observe capturing_after
drain_step-capturing s e = ground arith

peer_step-capturing :
    (s : Server) (e : ServerEvent)
    → capturing_after (is_remote s.edge.route) (peer_step s e).1
      ≡ is_remote (peer_step s e).0.edge.route
unfolding peer_step capturing_after set_auto_peer
peer_step-capturing s e = ground arith

step-capturing :
    (s : Server) (i : Input)
    → capturing_after (is_remote s.edge.route) (step s i).1 ≡ is_remote (step s i).0.edge.route
unfolding step
step-capturing s (captured e) = drain_step-capturing s e
step-capturing s (peer e) = peer_step-capturing s e

-- Over every run of captured events and peer events, the capture flag that the effects leave is on
-- exactly while the route is remote, if it was so at the start.
pub run-capturing :
    (s : Server) (is : List Input)
    → capturing_after (is_remote s.edge.route) (run s is).1 ≡ is_remote (run s is).0.edge.route
unfolding run
run-capturing s [] = unfold capturing_after in refl
run-capturing s (i ∷ is) =
    capturing_after-append (is_remote s.edge.route) (step s i).1 (run (step s i).0 is).1
    ∙ (ap (λ b. capturing_after b (run (step s i).0 is).1) (step-capturing s i)
        ∙ run-capturing (step s i).0 is)

-- While input stays local nothing leaves the machine: a captured event that finds the route local
-- and leaves it local has no effect at all.
pub drain_step_local_silent :
    (s : Server) (e : InputEvent)
    → s.edge.route ≡ local
    → (drain_step s e).0.edge.route ≡ local
    → (drain_step s e).1 ≡ []
unfolding drain_step force_local apply_decision observe
drain_step_local_silent s e r r' = ground arith

-- Away from home, every event but a move and the emergency hotkey is handed to the active peer as
-- its own message, and nothing else happens.
pub drain_step_forwards :
    (s : Server) (e : InputEvent) (screen : ScreenId) (p : PeerHandle)
    → s.edge.route ≡ remote screen
    → first s.peers ≡ some p
    → is_emergency e ≡ false
    → ((x y : ℤ) → e ≢ InputEvent.mouse (MouseEvent.move x y))
    → ((drain_step s e).1 ≡ try_send p (from_input e) ∷ [])
      × ((drain_step s e).0.edge.route ≡ remote screen)
unfolding drain_step apply_decision observe
drain_step_forwards s (InputEvent.mouse (MouseEvent.move x y)) screen p r f q m =
    absurd (m x y refl)
drain_step_forwards s (InputEvent.key k) screen p r f q m = (ground arith, ground arith)
drain_step_forwards s e screen p r f q m = (ground arith, ground arith)

-- An event at a server that is remote and has no peers: it is lost.
pub drain_step_stranded :
    (s : Server) (e : InputEvent) (screen : ScreenId)
    → s.edge.route ≡ remote screen
    → s.peers ≡ []
    → is_emergency e ≡ false
    → ((drain_step s e).1 ≡ [])
      × ((drain_step s e).0.edge.route ≡ remote screen)
      × ((drain_step s e).0.peers ≡ [])
unfolding drain_step apply_decision observe
drain_step_stranded s e screen r f q = (ground arith, ground arith, ground arith)
