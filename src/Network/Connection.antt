-- ===== src/Network/Connection.antt =====
-- One connection from its first packet to its last event: `connect_once` and `Client::resolve` of
-- crates/network/src/client.rs, `handle_connection` of
-- crates/network/src/server.rs, and `PeerHandle` of crates/network/src/peer.rs. What rustls and quinn
-- answer at each step is a parameter; the loop of the connection is that of PeerLoop.
pub mod Events
use my_deskflow.Prelude.{
  ℕ, String, Bool, true, false, not, Option, none, some, List, [], ◌∷◌, ◌++◌, ltb, length,
  if◌then◌else◌,
}
use my_deskflow.Core.Error.{Error, Result, ok, err, ◌>>=◌, map_err, network}
use my_deskflow.Protocol.Message.{Message}
use my_deskflow.Routing.Session.{PeerHandle, ServerEvent}
use my_deskflow.Network.Handshake.{LocalPeer, accept_hello, client_hello, accept_welcome}
use my_deskflow.Network.Supervisor.{ClientEvent, connected, disconnected}
use my_deskflow.Network.PeerLoop.{PeerLoop, channel_bound}

abbrev pub Done : Type 0
Done = Unit

-- What becomes of the future of `connect_once`: it is awaited to its end, or dropped before it has
-- announced a connection, or dropped in its peer loop.
pub data Future : Type 0 where
  awaited dropped_early dropped_in_loop : Future

-- What the libraries answer to a client that dials, and what its supervisor does with the future. A
-- pin is a text.
pub record Dialing : Type 0 where
  pub client_rustls_config : List String → Result Error Done
  pub quic_config : Result String Done
  pub connect : Result String Done
  pub handshake : Result String Done
  pub open_bi : Result String Done
  pub write_message : Message → Result Error Done
  pub read_message : Result Error Message
  pub future : Future

-- `connect_once` up to its events.
unfoldable pub establish : Dialing → LocalPeer → List String → Result Error PeerHandle
establish d cfg pins = d.client_rustls_config pins >>= λ _. map_err network d.quic_config >>= λ _.
    map_err network d.connect >>= λ _. map_err network d.handshake >>= λ _.
    map_err network d.open_bi >>= λ _.
    d.write_message (client_hello cfg) >>= λ _. d.read_message >>= accept_welcome

-- The events around the peer loop, if that is reached; a future that is dropped there announces no
-- end, and has no result.
unfoldable pub around_loop : Future → PeerHandle → List ClientEvent × Option (Result Error Done)
around_loop awaited p = (connected p ∷ disconnected p.peer_id ∷ [], some (ok tt))
around_loop dropped_early p = ([], none)
around_loop dropped_in_loop p = (connected p ∷ [], none)

-- An error ends it before, unless it is dropped.
abbrev pub failed_with : Future → Error → List ClientEvent × Option (Result Error Done)
failed_with dropped_early e = ([], none)
failed_with _ e = ([], some (err e))

unfoldable pub connect_once :
    Dialing → LocalPeer → List String → List ClientEvent × Option (Result Error Done)
unfolding establish around_loop
connect_once d cfg pins = elim (establish d cfg pins) [
  | err e ↦ failed_with d.future e
  | ok p ↦ around_loop d.future p
]

-- What quinn answers to a server, for one connection.
pub record Accepting : Type 0 where
  pub accept_bi : Result String Done
  pub read_message : Result Error Message
  pub write_message : Message → Result Error Done

-- The messages are written in their order; the first one that fails ends it.
write_all : (Message → Result Error Done) → List Message → Result Error Done
write_all write [] = ok tt
write_all write (m ∷ ms) = write m >>= λ _. write_all write ms

-- The reply to a hello that is refused is written without regard to the result.
answer :
    (Message → Result Error Done) → List Message × Result Error PeerHandle → Result Error PeerHandle
unfolding write_all
answer write (replies, err e) = err e
answer write (replies, ok p) = write_all write replies >>= λ _. ok p

unfoldable pub welcomed : Accepting → LocalPeer → Result Error PeerHandle
unfolding answer
welcomed a cfg = map_err network a.accept_bi >>= λ _.
    a.read_message >>= λ m. answer a.write_message (accept_hello cfg m)

unfoldable pub handle_connection : Accepting → LocalPeer → List ServerEvent × Result Error Done
unfolding welcomed
handle_connection a cfg = elim (welcomed a cfg) [
  | err e ↦ ([], err e)
  | ok p ↦ (ServerEvent.connected p ∷ ServerEvent.disconnected p.peer_id ∷ [], ok tt)
]

-- `Client::resolve`: the first address that the resolver gives.
unfoldable pub resolve {ℓ} : {Addr : Type ℓ} → Result String (List Addr) → Result Error Addr
resolve (err e) = err (network e)
resolve (ok []) = err (network "no addresses")
resolve (ok (a ∷ as')) = ok a

-- `PeerHandle`: its channel is the outbound one of its peer loop, whose receiver goes with the
-- writer. `none` while the channel is full: `send` waits then.
unfoldable pub send : PeerLoop → Message → Option (Result Error PeerLoop)
send s m =
    if not s.writing
    then some (err (network "peer outbound channel closed"))
    else if ltb (length s.outbound) channel_bound
    then some (ok (record s { outbound = s.outbound ++ (m ∷ []) }))
    else none

unfoldable pub try_send : PeerLoop → Message → Result Error PeerLoop
unfolding send
try_send s m = elim (send s m) [ none ↦ err (network "peer outbound: full") | some r ↦ r ]

-- The connection of the handle, until `clear`.
abbrev pub Shared : Type 0
Shared = Option (Result String Done)

unfoldable pub open_bi : Shared → Result Error Done
open_bi none = err (network "peer disconnected")
open_bi (some opened) = map_err network opened

abbrev pub clear : Shared → Shared
clear connection = none
