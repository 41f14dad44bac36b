-- ===== src/Tests/Connections.antt =====
-- The tasks of a connection and its two ends at concrete inputs.
use my_deskflow.Prelude.{none, ◌⊎◌, ◌≡◌, refl, true, List, [], ◌∷◌, ◌++◌}
use my_deskflow.Prelude.Tagged.{from}
use my_deskflow.Core.Error.{ok}
use my_deskflow.Protocol.Header.{decode, from_u16}
use my_deskflow.Protocol.Message.{Message, Welcome, welcome, ping, full}
use my_deskflow.Protocol.Codec.{decode_frame}
use my_deskflow.Protocol.Stream.{read_message}
use my_deskflow.Network.Handshake.{accept_welcome}
use my_deskflow.Network.Supervisor.{connected}
use my_deskflow.Network.PeerLoop.{
  spawned, Event, sent, write, read, forward, accepted, take, cancel, run,
}
use my_deskflow.Network.PeerLoop.Accounts.{delivered, pending, messages}
use my_deskflow.Network.PeerLoop.Faithful.{run-delivers}
use my_deskflow.Network.PeerLoop.Joined.{put_over, run-joined}
use my_deskflow.Network.Connection.Events.{Reaches, Ends, connect_once_announces}
use my_deskflow.Network.Connection.{Dialing, dropped_in_loop, connect_once, around_loop, establish}
use my_deskflow.Tests.Network.{laptop}
use my_deskflow.Tests.Wire.{pings, frame, deserialize_ping, pings-RoundTrips}

-- Two messages on the control stream and one on another, taken turn by turn.
abbrev turns : List Event
turns =
    read 0
    ∷ forward 0
    ∷ accepted frame
    ∷ read 1
    ∷ cancel
    ∷ forward 1
    ∷ take
    ∷ read 0
    ∷ forward 0
    ∷ []

-- The second message of the control stream arrives behind the drop of the future.
turns_deliver :
    delivered (run pings (spawned (frame ++ frame)) turns)
    ≡ (0, ping 42 7) ∷ (1, ping 42 7) ∷ (0, ping 42 7) ∷ []
unfolding run read_message decode_frame decode from_u16 deserialize_ping
turns_deliver = refl

run-delivers_example :
    from 0 (delivered (run pings (spawned (frame ++ frame)) turns))
      ++ pending pings ((run pings (spawned (frame ++ frame)) turns).readers 0)
    ≡ messages pings ((run pings (spawned (frame ++ frame)) turns).readers 0).whole
run-delivers_example = run-delivers pings (frame ++ frame) turns 0

-- One ping sent, one written and read at the other end.
run-joined_example :
    let s = run pings (spawned []) (sent (ping 42 7) ∷ write true ∷ sent (ping 1 2) ∷ []) in
    let t = run pings (spawned s.written) (read 0 ∷ forward 0 ∷ []) in
    (unsent : List Message) × (put_over pings
        (spawned [])
        (sent (ping 42 7) ∷ write true ∷ sent (ping 1 2) ∷ [])
      ≡ (from 0 (delivered t) ++ pending pings (t.readers 0)) ++ unsent)
    × (s.writing ≡ true → unsent ≡ s.outbound)
run-joined_example =
    run-joined pings pings-RoundTrips [] (sent (ping 42 7) ∷ write true ∷ sent (ping 1 2) ∷ [])
      (read 0 ∷ forward 0 ∷ [])

abbrev reply : Message
reply =
    welcome (record {
      peer_id = 1;
      peer_name = "desk";
      accepted_capabilities = full;
      assigned_screen = 0;
    })

abbrev dialing : Dialing
dialing = record {
  client_rustls_config = λ pins. ok tt;
  quic_config = ok tt;
  connect = ok tt;
  handshake = ok tt;
  open_bi = ok tt;
  write_message = λ m. ok tt;
  read_message = ok reply;
  future = dropped_in_loop;
}

-- A dial that is hung up announces a connection and never its end.
hung_up :
    connect_once dialing laptop []
    ≡ (connected (record { peer_id = 1; peer_name = "desk" }) ∷ [], none)
unfolding connect_once around_loop establish accept_welcome
hung_up = refl

connect_once_announces_example :
    ((connect_once dialing laptop []).0 ≡ [])
    ⊎ ((w : Welcome) × Reaches dialing laptop []
        × (dialing.read_message ≡ ok (welcome w))
        × Ends dialing laptop [] w)
connect_once_announces_example = connect_once_announces dialing laptop []
