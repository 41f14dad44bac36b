-- ===== src/Routing/Session.antt =====
-- crates/daemon/src/session.rs, the server side: captured input goes through the edge detector and
-- out to a peer, and peers come and go. What a handler does to the world is a list of effects; a
-- send whose failure the code ignores is the attempt. Handlers run one at a time.
pub mod Routes
pub mod Peers
pub mod Motion
use my_deskflow.Prelude.{
  ℕ, String, Bool, true, false, ◌&&◌, Option, none, some, List, [], ◌∷◌, ◌++◌, ◌==◌, if◌then◌else◌,
}
use my_deskflow.Prelude.Int.{pos, eqb_ℤ}
use my_deskflow.Core.Screen.{PeerId, Point}
use my_deskflow.Core.Modifiers.{empty, shift, ctrl, alt, contains}
use my_deskflow.Core.Event.{
  InputEvent, MouseEvent, KeyEvent, KeyState, pressed, released, escape, usage,
}
use my_deskflow.Protocol.Message.{Message, from_input}
use my_deskflow.Routing.Edge.{
  EdgeDetector, RouteDecision, stay, enter_remote, leave_remote, ForwardTo, to_local, to_remote,
  force_local, observe, set_auto_peer, sub_i32,
}

-- crates/network/src/peer.rs: `PeerHandle`, by what identifies the peer; its channel is what the
-- effects `send` and `try_send` name it for.
pub record PeerHandle : Type 0 where
  pub peer_id : PeerId
  pub peer_name : String

pub data Effect : Type 0 where
  send : PeerHandle → Message → Effect
  try_send : PeerHandle → Message → Effect
  warp_cursor : Point → Effect
  set_capturing : Bool → Effect
  spawn_heartbeat : PeerHandle → ℕ → Effect
  spawn_inbound : PeerHandle → Effect

-- The state that the tasks of a server session share, and the `last_mouse` of `drain_capture`.
pub record Server : Type 0 where
  pub edge : EdgeDetector
  pub peers : List PeerHandle
  pub last_mouse : Option Point
  pub heartbeat_interval_ms : ℕ

-- `peers.lock().first().cloned()`.
abbrev pub first : List PeerHandle → Option PeerHandle
first [] = none
first (p ∷ ps) = some p

pressed_escape : KeyEvent → KeyState → Bool
pressed_escape k pressed =
    usage k.code == usage escape
    && (contains k.modifiers ctrl && (contains k.modifiers alt && contains k.modifiers shift))
pressed_escape k released = false

unfoldable pub is_emergency : InputEvent → Bool
unfolding pressed_escape
is_emergency (InputEvent.key k) = pressed_escape k k.state
is_emergency _ = false

-- The message goes to the active peer, if there is one.
abbrev pub to_active : Option PeerHandle → (PeerHandle → List Effect) → List Effect
to_active none effects = []
to_active (some peer) effects = effects peer

unfoldable pub apply_decision : RouteDecision → List PeerHandle → List Effect
apply_decision stay peers = []
apply_decision (enter_remote screen entry local_warp modifiers) peers =
    to_active (first peers)
      (λ peer. send peer (Message.screen_enter entry.x entry.y modifiers) ∷ [])
    ++ (warp_cursor local_warp ∷ set_capturing true ∷ [])
apply_decision (leave_remote screen) peers =
    to_active (first peers) (λ peer.
      send peer (Message.screen_leave screen) ∷ send peer (Message.modifier_sync empty) ∷ [])
    ++ (set_capturing false ∷ [])

-- The movement since the last known position; none is known after an emergency.
abbrev pub delta : Option Point → Point → Point
delta none cur = record { x = pos 0; y = pos 0 }
delta (some prev) cur = record { x = sub_i32 cur.x prev.x; y = sub_i32 cur.y prev.y }

-- A move is forwarded as its delta, unless it is no movement.
unfoldable pub forward_delta : PeerHandle → Point → List Effect
forward_delta peer d =
    if eqb_ℤ d.x (pos 0) && eqb_ℤ d.y (pos 0)
    then []
    else (try_send peer (from_input (InputEvent.mouse (MouseEvent.move_relative d.x d.y))) ∷ [])

-- `if forward == ForwardTo::Remote { if let Some(peer) = active_peer … }`.
forward_remote : Server → InputEvent → Option PeerHandle → Server × List Effect
unfolding forward_delta
forward_remote s event none = (s, [])
forward_remote s (InputEvent.mouse (MouseEvent.move x y)) (some peer) =
    let cur : Point = record { x = x; y = y } in
    (record s { last_mouse = some cur }, forward_delta peer (delta s.last_mouse cur))
forward_remote s event (some peer) = (s, try_send peer (from_input event) ∷ [])

-- The `else` branch: the position is tracked while local.
track_local : Server → InputEvent → Server
track_local s (InputEvent.mouse (MouseEvent.move x y)) = record s {
  last_mouse = some (record { x = x; y = y });
}
track_local s event = s

forward : ForwardTo → Server → InputEvent → Server × List Effect
unfolding forward_remote track_local
forward to_remote s event = forward_remote s event (first s.peers)
forward to_local s event = (track_local s event, [])

drain_emergency : Server → Server × List Effect
drain_emergency s =
    let (edge, decision) = force_local s.edge in
    (record s { edge = edge; last_mouse = none }, apply_decision decision s.peers)

drain_event : Server → InputEvent → Server × List Effect
unfolding forward
drain_event s event =
    let (edge, decision, target) = observe s.edge event in
    let (s', forwarded) = forward target (record s { edge = edge }) event in
    (s', apply_decision decision s.peers ++ forwarded)

-- One round of `drain_capture`.
unfoldable pub drain_step : Server → InputEvent → Server × List Effect
unfolding drain_emergency drain_event
drain_step s event = if is_emergency event then drain_emergency s else drain_event s event

-- crates/network/src/server.rs, `ServerEvent`, without the receiving end of the inbound channel.
pub data ServerEvent : Type 0 where
  connected : PeerHandle → ServerEvent
  disconnected : PeerId → ServerEvent

-- `peers.retain(|p| p.peer_id != peer_id)`.
unfoldable pub retain : PeerId → List PeerHandle → List PeerHandle
retain id [] = []
retain id (p ∷ ps) = let rest = retain id ps in if p.peer_id == id then rest else p ∷ rest

clear_auto_peer : List PeerHandle → EdgeDetector → EdgeDetector
clear_auto_peer [] edge = set_auto_peer edge none
clear_auto_peer (p ∷ ps) edge = edge

-- One round of `handle_peer_events_server`.
unfoldable pub peer_step : Server → ServerEvent → Server × List Effect
unfolding clear_auto_peer
peer_step s (connected handle) = (
  record s { peers = s.peers ++ (handle ∷ []); edge = set_auto_peer s.edge (some 1) },
  spawn_heartbeat handle s.heartbeat_interval_ms ∷ spawn_inbound handle ∷ [],
)
peer_step s (disconnected id) =
    let left = retain id s.peers in
    (record s { peers = left; edge = clear_auto_peer left s.edge }, [])

-- What happens to a server: a captured event or a peer event, in any order.
pub data Input : Type 0 where
  captured : InputEvent → Input
  peer : ServerEvent → Input

unfoldable pub step : Server → Input → Server × List Effect
step s (captured e) = drain_step s e
step s (peer e) = peer_step s e

-- A run, with all its effects in order.
unfoldable pub run : Server → List Input → Server × List Effect
run s [] = (s, [])
run s (i ∷ is) = let (s', done) = step s i in let (s'', rest) = run s' is in (s'', done ++ rest)
