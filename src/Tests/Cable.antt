-- ===== src/Tests/Cable.antt =====
-- The way of captured moves from a server to a client, over a small stand-in for bincode.
use my_deskflow.Prelude.{ℕ, ◌≡◌, refl, arith, String, true, some, List, [], ◌∷◌, ◌++◌, map}
use my_deskflow.Prelude.Int.{pos, ◌+ℤ◌, ◌-ℤ◌, wrap_i32}
use my_deskflow.Core.Modifiers.{empty}
use my_deskflow.Core.Screen.{Point, EdgeSide, right, neighbour_of}
use my_deskflow.Core.Error.{Result, ok, err}
use my_deskflow.Core.Event.{InputEvent, MouseEvent}
use my_deskflow.Protocol.Header.{encode, new, type_id}
use my_deskflow.Protocol.Message.{Message, message_type, from_input}
use my_deskflow.Protocol.Codec.{Bincode, RoundTrips, encode_frame}
use my_deskflow.Protocol.Stream.{read_loop, write_loop, write_message}
use my_deskflow.Protocol.Stream.Fuel.{read_loop-fuel}
use my_deskflow.Routing.Edge.{
  EdgeDetector, remote, observe, set_auto_peer, target, entry_point, cross_local_edge,
}
use my_deskflow.Routing.Edge.Crossing.{Touches, moved_to}
use my_deskflow.Routing.Edge
use my_deskflow.Routing.Session.{
  Server, PeerHandle, captured, drain_step, is_emergency, step, run, forward_delta, apply_decision,
  peer_step,
}
use my_deskflow.Routing.Inbound.{Action, inject, inbound_loop}
use my_deskflow.Routing.Cable.{cable, channel, inbound_loop-refines_cable}
use my_deskflow.Routing.Cable.Visit.{visit, EntersAt, Holds, inbound_loop-visit}

-- Relative moves to the right and down are serialised as their two numbers, and arrivals of the
-- cursor as three.
serialize_move : Message → Result String (List ℕ)
serialize_move (Message.mouse_move_relative (pos dx) (pos dy)) = ok (dx ∷ dy ∷ [])
serialize_move (Message.screen_enter (pos x) (pos y) m) = ok (x ∷ y ∷ m ∷ [])
serialize_move m = err "unsupported"

deserialize_move : List ℕ → Result String Message
deserialize_move (dx ∷ dy ∷ []) = ok (Message.mouse_move_relative (pos dx) (pos dy))
deserialize_move (x ∷ y ∷ m ∷ []) = ok (Message.screen_enter (pos x) (pos y) m)
deserialize_move bytes = err "unsupported"

abbrev relative_moves : Bincode
relative_moves = record { serialize = serialize_move; deserialize = deserialize_move }

deserialize_move-serialize_move :
    (m : Message) (bytes : List ℕ) → serialize_move m ≡ ok bytes → deserialize_move bytes ≡ ok m
unfolding serialize_move deserialize_move
deserialize_move-serialize_move (Message.mouse_move_relative (pos dx) (pos dy)) bytes e =
    ground arith
deserialize_move-serialize_move (Message.screen_enter (pos x) (pos y) m) bytes e = ground arith
deserialize_move-serialize_move m bytes e = cc

relative_moves-RoundTrips : RoundTrips relative_moves
relative_moves-RoundTrips = record { deserialize-serialize = deserialize_move-serialize_move }

abbrev laptop : PeerHandle
laptop = record { peer_id = 7; peer_name = "laptop" }

abbrev serving : Server
serving = record {
  edge = record (Edge.new 0 (pos 1920) (pos 1080) (record { screens = []; neighbours = [] })) {
    route = remote 1;
  };
  peers = laptop ∷ [];
  last_mouse = some (record { x = pos 10; y = pos 10 });
  heartbeat_interval_ms = 2000;
}

abbrev strokes : List InputEvent
strokes =
    InputEvent.mouse (MouseEvent.move (pos 13) (pos 15))
    ∷ InputEvent.mouse (MouseEvent.move (pos 13) (pos 15))
    ∷ InputEvent.mouse (MouseEvent.move (pos 20) (pos 15))
    ∷ []

inbound_loop-refines_cable_example :
    inbound_loop true (
      read_loop relative_moves 40
        (write_loop relative_moves [] (channel (run serving (map captured strokes)).1)))
    ≡ map inject (cable (some (record { x = pos 10; y = pos 10 })) strokes)
unfolding run step drain_step observe is_emergency channel apply_decision forward_delta from_input
    encode_frame write_loop write_message encode new type_id message_type serialize_move Edge.new
    ◌-ℤ◌ wrap_i32
inbound_loop-refines_cable_example =
    inbound_loop-refines_cable relative_moves 1 laptop serving strokes 40 relative_moves-RoundTrips
      (record { away = refl; active = refl }) (omega arith, omega arith)
      (
        (tt, refl, (omega arith, omega arith)),
        ((tt, refl, (omega arith, omega arith)), ((tt, refl, (omega arith, omega arith)), tt)),
      )
      ((_, refl), ((_, refl), tt)) (omega arith)

-- The end of a stream that breaks off is found with little fuel and with much.
read_loop-fuel_example :
    read_loop relative_moves 4 (1 ∷ 2 ∷ 3 ∷ []) ≡ read_loop relative_moves 1000 (1 ∷ 2 ∷ 3 ∷ [])
read_loop-fuel_example =
    read_loop-fuel relative_moves 4 1000 (1 ∷ 2 ∷ 3 ∷ []) (omega arith) (omega arith)

-- Before the laptop is connected.
abbrev at_home : Server
at_home = record serving {
  edge = Edge.new 0 (pos 1920) (pos 1080) (record { screens = []; neighbours = [] });
  peers = [];
}

abbrev right_edge : Point
right_edge = record { x = pos 1919; y = pos 500 }

abbrev further : List InputEvent
further =
    InputEvent.mouse (MouseEvent.move (pos 1919) (pos 505))
    ∷ InputEvent.mouse (MouseEvent.move (pos 1921) (pos 505))
    ∷ []

inbound_loop-visit_example :
    (side : EdgeSide) × (at : Point) × (actions : List Action) × Touches 1920 1080 side right_edge
    × EntersAt side right_edge at
    × Holds empty actions
    × (inbound_loop true (
          read_loop relative_moves 100
            (write_loop relative_moves [] (visit at_home laptop right_edge further)))
        ≡ inject (InputEvent.mouse (MouseEvent.move at.x at.y))
          ∷ (actions
              ++ map inject (
                  cable
                    (some (record { x = pos 10; y = pos 10 }))
                    (moved_to right_edge ∷ further))))
unfolding run step peer_step drain_step observe set_auto_peer is_emergency channel apply_decision
    forward_delta from_input encode_frame write_loop write_message encode new type_id message_type
    serialize_move Edge.new ◌+ℤ◌ ◌-ℤ◌ wrap_i32 target neighbour_of entry_point cross_local_edge
inbound_loop-visit_example =
    inbound_loop-visit 1920 1080 at_home laptop right_edge right further
      (record {
        width = refl;
        height = refl;
        some_width = omega arith;
        some_height = omega arith;
        width_fits = omega arith;
        height_fits = omega arith;
        strict = refl;
      })
      refl refl (omega arith) (omega arith, omega arith) (omega arith, omega arith)
      ((tt, refl, (omega arith, omega arith)), ((tt, refl, (omega arith, omega arith)), tt))
      relative_moves 100 relative_moves-RoundTrips (omega arith)
      ((_, refl), ((_, refl), ((_, refl), ((_, refl), tt)))) (omega arith)
