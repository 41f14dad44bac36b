-- ===== src/Routing/Cable/Visit.antt =====
-- A visit of the client's screen from its beginning: a peer connects to a server session of
-- crates/daemon/src/session.rs, the cursor touches a side, and what is captured from then on goes
-- over the wire to inbound_loop on the client.
use my_deskflow.Prelude.{
  ℕ, ◌<◌, ◌≡◌, refl, ap, sym, ◌∙◌, true, false, some, List, [], ◌∷◌, ◌++◌, map, arith, All, length,
  subst, bit_and,
}
use mathlib.Core.List.{map-append}
use my_deskflow.Prelude.Int.{ℤ, pos}
use my_deskflow.Core.Modifiers.{ModifierState}
use my_deskflow.Core.Screen.{Point, EdgeSide, top, bottom, left, right, ScreenId}
use my_deskflow.Core.Event.{InputEvent, MouseEvent}
use my_deskflow.Protocol.Message.{Message, from_input}
use my_deskflow.Protocol.Codec.{Bincode, RoundTrips}
use my_deskflow.Protocol.Stream.{read_loop, write_loop}
use my_deskflow.Protocol.Stream.Sessions.{read_loop-write_loop}
use my_deskflow.Routing.Edge.{local, observe, set_auto_peer, entry_point}
use my_deskflow.Routing.Edge.Crossing.{IsScreen, Touches, moved_to, entered, observe-entered}
use my_deskflow.Routing.Session.{
  Server, PeerHandle, first, is_emergency, apply_decision, forward_delta, drain_step, captured,
  peer, connected, peer_step, step, run,
}
use my_deskflow.Routing.Session.Motion.{Near}
use my_deskflow.Routing.Inbound.Modifiers.{
  held_after, held_after-resync_modifiers, IsKeyAction, resync_modifiers-IsKeyAction,
}
use my_deskflow.Routing.Inbound.{Action, inject, resync_modifiers, inbound_step, inbound_loop}
use my_deskflow.Routing.Inbound.Replay.{IsDevice, inbound_loop-from_input}
use my_deskflow.Routing.Cable.{
  arriving, sends, sends-arriving, known, cable, channel, channel-append, IsForwarding, IsPlain,
  IsNearKnown, run-channel, cable-IsDevice, Fits, sent-all,
}

-- A move that crosses, with a peer.
module _ (s : Server) (p : PeerHandle) (q : Point) (side : EdgeSide) (screen : ScreenId)
    (active : first s.peers ≡ some p)
    (crossed : observe s.edge (moved_to q) ≡ entered s.edge side q screen) where
  crossing-IsForwarding :
      IsForwarding screen p (drain_step s (moved_to q)).0
      × ((drain_step s (moved_to q)).0.last_mouse ≡ some q)
  unfolding drain_step is_emergency
  crossing-IsForwarding = rw (crossed, active) (record { away = refl; active = active }, refl)

  crossing-sends :
      channel (drain_step s (moved_to q)).1
      ≡ Message.screen_enter (entry_point side q).x (entry_point side q).y s.edge.modifiers
        ∷ map from_input (sends s.last_mouse (moved_to q))
  unfolding drain_step is_emergency apply_decision forward_delta channel sends from_input
  crossing-sends = rw (crossed, active) (ground arith)

  crossing-channel :
      IsNearKnown s.last_mouse
      → Near q
      → channel (drain_step s (moved_to q)).1
        ≡ Message.screen_enter (entry_point side q).x (entry_point side q).y s.edge.modifiers
          ∷ map from_input (arriving s.last_mouse (moved_to q))
  crossing-channel known near =
      crossing-sends
      ∙ ap
          (λ l.
            Message.screen_enter (entry_point side q).x (entry_point side q).y s.edge.modifiers
            ∷ map from_input l)
          (sends-arriving s.last_mouse (moved_to q) known near)

-- What the client does on the arrival of the cursor.
inbound_loop-arrival :
    (x y : ℤ) (m : ModifierState) (es : List InputEvent)
    → All IsDevice es
    → inbound_loop true (Message.screen_enter x y m ∷ map from_input es)
      ≡ inject (InputEvent.mouse (MouseEvent.move x y)) ∷ (resync_modifiers m ++ map inject es)
unfolding inbound_loop inbound_step
inbound_loop-arrival x y m es all =
    ap (λ l. inject (InputEvent.mouse (MouseEvent.move x y)) ∷ (resync_modifiers m ++ l))
      (inbound_loop-from_input es all)

-- The messages of the handlers of a session to which a peer connects, over a move and what is
-- captured behind it.
abbrev pub visit : Server → PeerHandle → Point → List InputEvent → List Message
visit s p q es = channel (run s (peer (connected p) ∷ captured (moved_to q) ∷ map captured es)).1

-- Where the cursor enters: across from the side, with the coordinate along it as it was.
abbrev pub EntersAt : EdgeSide → Point → Point → Type 0
EntersAt left q at = (at.x ≡ pos 32000) × (at.y ≡ q.y)
EntersAt right q at = (at.x ≡ pos 0) × (at.y ≡ q.y)
EntersAt top q at = (at.x ≡ q.x) × (at.y ≡ pos 32000)
EntersAt bottom q at = (at.x ≡ q.x) × (at.y ≡ pos 0)

entry_point-EntersAt : (side : EdgeSide) (q : Point) → EntersAt side q (entry_point side q)
unfolding entry_point
entry_point-EntersAt left q = (refl, refl)
entry_point-EntersAt right q = (refl, refl)
entry_point-EntersAt top q = (refl, refl)
entry_point-EntersAt bottom q = (refl, refl)

-- The actions leave exactly Shift, Ctrl, Alt and Super of a set held, whatever was held before.
pub record Holds (target : ModifierState) (actions : List Action) : Type 0 where
  pub keys : All IsKeyAction actions
  pub exact : (held : ModifierState) → held_after held actions ≡ bit_and target 0b1111

module _ (w h : ℕ) (s : Server) (p : PeerHandle) (q : Point) (side : EdgeSide)
    (es : List InputEvent) (screen : IsScreen w h s.edge) (home : s.edge.route ≡ local)
    (alone : s.peers ≡ []) (touches : Touches w h side q) (near_known : IsNearKnown s.last_mouse)
    (near : Near q) (plain : All IsPlain es) where
  joined : Server
  joined = (peer_step s (connected p)).0

  joined-active : first joined.peers ≡ some p
  unfolding joined peer_step
  joined-active = rw alone refl

  joined-entered :
      (side' : EdgeSide) × (to : ScreenId) × Touches w h side' q
      × (observe joined.edge (moved_to q) ≡ entered joined.edge side' q to)
  unfolding joined peer_step set_auto_peer
  joined-entered =
      observe-entered w h joined.edge q
        (record {
          width = screen.width;
          height = screen.height;
          some_width = screen.some_width;
          some_height = screen.some_height;
          width_fits = screen.width_fits;
          height_fits = screen.height_fits;
          strict = screen.strict;
        })
        home side 1 refl touches

  visit-screen_enter :
      (side' : EdgeSide) × Touches w h side' q
      × (visit s p q es
          ≡ Message.screen_enter (entry_point side' q).x (entry_point side' q).y s.edge.modifiers
            ∷ map from_input (cable s.last_mouse (moved_to q ∷ es)))
  unfolding joined run step peer_step set_auto_peer channel cable known
  visit-screen_enter =
      let (side', to, touched, crossed) = joined-entered in
      let away = crossing-IsForwarding joined p q side' to joined-active crossed in
      let end = (drain_step joined (moved_to q)).0 in
      let near_end = subst IsNearKnown (sym away.1) near in
      let later = (run end (map captured es)).1 in
      let first_move = arriving s.last_mouse (moved_to q) in
      let behind = cable (some q) es in
      (
        side',
        touched,
        channel-append (drain_step joined (moved_to q)).1 later
            ∙ (ap (λ l. l ++ channel later)
                  (crossing-channel joined p q side' to joined-active crossed near_known near)
                ∙ ap
                    (λ l.
                      Message.screen_enter (entry_point side' q).x (entry_point side' q).y
                        s.edge.modifiers
                      ∷ l)
                    (ap (λ l. map from_input first_move ++ l)
                        (run-channel to p end es away.0 near_end plain
                          ∙ ap (λ k. map from_input (cable k es)) away.1)
                      ∙ sym (map-append from_input first_move behind))),
      )

  -- When a first peer connects to a session whose route is local, whose set of modifiers is within
  -- the seven flags and whose last known position, if any, is within 2^30 of the origin, then a
  -- move to a position within 2^30 touches a side of the screen, and then events of devices are
  -- captured, none of them the emergency hotkey and each move to a position within 2^30 of the
  -- origin, the client injects a position on the side opposite to a touched side (coordinate 32000
  -- or 0, the other as captured), then keys and modifier releases behind which exactly Shift,
  -- Ctrl, Alt and Super of the set are held, and then what the cable lets arrive of the move and
  -- the events, when the channel takes every message, every message fits a frame, bincode reads
  -- back what it wrote, and the fuel exceeds the length of the stream.
  pub inbound_loop-visit :
      (b : Bincode) (fuel : ℕ)
      → RoundTrips b
      → s.edge.modifiers < 128
      → Fits b (visit s p q es)
      → length (write_loop b [] (visit s p q es)) < fuel
      → (side' : EdgeSide) × (at : Point) × (actions : List Action) × Touches w h side' q
        × EntersAt side' q at
        × Holds s.edge.modifiers actions
        × (inbound_loop true (read_loop b fuel (write_loop b [] (visit s p q es)))
            ≡ inject (InputEvent.mouse (MouseEvent.move at.x at.y))
              ∷ (actions ++ map inject (cable s.last_mouse (moved_to q ∷ es))))
  inbound_loop-visit b fuel trips flags fits enough =
      let (side', touched, same) = visit-screen_enter in
      (
        side',
        entry_point side' q,
        resync_modifiers s.edge.modifiers,
        touched,
        entry_point-EntersAt side' q,
        record {
          keys = resync_modifiers-IsKeyAction s.edge.modifiers;
          exact = λ held. held_after-resync_modifiers held s.edge.modifiers flags;
        },
        ap (inbound_loop true) (
              read_loop-write_loop b trips (visit s p q es) fuel enough
              ∙ (sent-all b (visit s p q es) fits ∙ same))
            ∙ inbound_loop-arrival (entry_point side' q).x (entry_point side' q).y s.edge.modifiers
                (cable s.last_mouse (moved_to q ∷ es))
                (cable-IsDevice s.last_mouse (moved_to q ∷ es) ((tt, moved_plain, near), plain)),
      )
    where
      moved_plain : is_emergency (moved_to q) ≡ false
      moved_plain = unfold is_emergency in refl
