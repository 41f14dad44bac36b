-- ===== src/Routing/Cable.antt =====
-- The whole way of an event, from drain_capture of crates/daemon/src/session.rs over write_loop and
-- read_loop of crates/network/src/peer_loop.rs to inbound_loop on the client, against the cable that
-- it stands for.
pub mod Visit
use my_deskflow.Prelude.{
  ℕ, ◌<◌, ◌≡◌, refl, ap, sym, ◌∙◌, true, false, ◌&&◌, Option, none, some, subst, List, [], ◌∷◌,
  ◌++◌, map, arith, if◌then◌else◌, All, All-append, length,
}
use mathlib.Core.List.{map-append}
use my_deskflow.Prelude.Int.{pos, eqb_ℤ, ◌-ℤ◌}
use my_deskflow.Core.Error.{ok}
use my_deskflow.Core.Screen.{Point, ScreenId}
use my_deskflow.Core.Event.{InputEvent, MouseEvent}
use my_deskflow.Protocol.Message.{Message, from_input}
use my_deskflow.Protocol.Codec.{Bincode, RoundTrips, encode_frame}
use my_deskflow.Protocol.Stream.{read_loop, write_loop}
use my_deskflow.Protocol.Stream.Sessions.{sent, sent-ok, read_loop-write_loop}
use my_deskflow.Routing.Edge.{remote, observe}
use my_deskflow.Routing.Session.{
  Effect, send, try_send, Server, PeerHandle, first, is_emergency, apply_decision, delta,
  forward_delta, drain_step, captured, step, run,
}
use my_deskflow.Routing.Session.Motion.{Near, sub_i32_near}
use my_deskflow.Routing.Inbound.{inject, inbound_loop}
use my_deskflow.Routing.Inbound.Replay.{IsDevice, inbound_loop-from_input}

-- The way from the position known before, as two integers that nothing wraps.
unfoldable pub distance : Option Point → Point → Point
distance none to = record { x = pos 0; y = pos 0 }
distance (some from) to = record { x = to.x -ℤ from.x; y = to.y -ℤ from.y }

-- The cable: a move arrives as the distance from the position known before, unless it is none; any
-- other event arrives as it is.
unfoldable pub arriving : Option Point → InputEvent → List InputEvent
arriving last (InputEvent.mouse (MouseEvent.move x y)) =
    let d = distance last (record { x = x; y = y }) in
    if eqb_ℤ d.x (pos 0) && eqb_ℤ d.y (pos 0)
    then []
    else (InputEvent.mouse (MouseEvent.move_relative d.x d.y) ∷ [])
arriving last e = e ∷ []

unfoldable pub known : Option Point → InputEvent → Option Point
known last (InputEvent.mouse (MouseEvent.move x y)) = some (record { x = x; y = y })
known last e = last

unfoldable pub cable : Option Point → List InputEvent → List InputEvent
cable last [] = []
cable last (e ∷ es) = arriving last e ++ cable (known last e) es

-- The messages that the effects put into a peer's channel, when it takes every one.
unfoldable pub channel : List Effect → List Message
channel [] = []
channel (send p m ∷ es) = m ∷ channel es
channel (try_send p m ∷ es) = m ∷ channel es
channel (_ ∷ es) = channel es

pub channel-append : (es fs : List Effect) → channel (es ++ fs) ≡ channel es ++ channel fs
unfolding channel
channel-append [] fs = refl
channel-append (send p m ∷ es) fs = ap (λ l. m ∷ l) (channel-append es fs)
channel-append (try_send p m ∷ es) fs = ap (λ l. m ∷ l) (channel-append es fs)
channel-append (Effect.warp_cursor p ∷ es) fs = channel-append es fs
channel-append (Effect.set_capturing c ∷ es) fs = channel-append es fs
channel-append (Effect.spawn_heartbeat p n ∷ es) fs = channel-append es fs
channel-append (Effect.spawn_inbound p ∷ es) fs = channel-append es fs

-- A server that forwards to a peer.
pub record IsForwarding (screen : ScreenId) (p : PeerHandle) (s : Server) : Type 0 where
  pub away : s.edge.route ≡ remote screen
  pub active : first s.peers ≡ some p

-- A move goes to a position within 2^30 of the origin.
abbrev pub IsNearMove : InputEvent → Type 0
IsNearMove (InputEvent.mouse (MouseEvent.move x y)) = Near (record { x = x; y = y })
IsNearMove _ = Unit {0}

abbrev pub IsNearKnown : Option Point → Type 0
IsNearKnown none = Unit {0}
IsNearKnown (some p) = Near p

-- An event of a keyboard or mouse that is not the emergency hotkey and does not move too far.
abbrev pub IsPlain : InputEvent → Type 0
IsPlain e = IsDevice e × (is_emergency e ≡ false) × IsNearMove e

-- In reach of the origin the wrapped difference is the distance.
delta-distance :
    (last : Option Point) (to : Point)
    → IsNearKnown last
    → Near to
    → delta last to ≡ distance last to
unfolding distance
delta-distance none to known near = refl
delta-distance (some from) to known near =
    rw (sub_i32_near to.x from.x near.0 known.0, sub_i32_near to.y from.y near.1 known.1) refl

-- What the session sends for an event.
unfoldable pub sends : Option Point → InputEvent → List InputEvent
sends last (InputEvent.mouse (MouseEvent.move x y)) =
    let d = delta last (record { x = x; y = y }) in
    if eqb_ℤ d.x (pos 0) && eqb_ℤ d.y (pos 0)
    then []
    else (InputEvent.mouse (MouseEvent.move_relative d.x d.y) ∷ [])
sends last e = e ∷ []

pub sends-arriving :
    (last : Option Point) (e : InputEvent)
    → IsNearKnown last
    → IsNearMove e
    → sends last e ≡ arriving last e
unfolding sends arriving
sends-arriving last (InputEvent.mouse (MouseEvent.move x y)) k near =
    rw (delta-distance last (record { x = x; y = y }) k near) refl
sends-arriving last (InputEvent.mouse (MouseEvent.move_relative x y)) k near = refl
sends-arriving last (InputEvent.mouse (MouseEvent.button b state)) k near = refl
sends-arriving last (InputEvent.mouse (MouseEvent.scroll d)) k near = refl
sends-arriving last (InputEvent.key key) k near = refl
sends-arriving last e k near = refl

pub known-IsNear :
    (last : Option Point) (e : InputEvent)
    → IsNearKnown last
    → IsNearMove e
    → IsNearKnown (known last e)
unfolding known
known-IsNear last (InputEvent.mouse (MouseEvent.move x y)) k near = near
known-IsNear last (InputEvent.mouse (MouseEvent.move_relative x y)) k near = k
known-IsNear last (InputEvent.mouse (MouseEvent.button b state)) k near = k
known-IsNear last (InputEvent.mouse (MouseEvent.scroll d)) k near = k
known-IsNear last (InputEvent.key key) k near = k
known-IsNear last e k near = k

module _ (screen : ScreenId) (p : PeerHandle) where
  pub drain_step-IsForwarding :
      (s : Server) (e : InputEvent)
      → IsForwarding screen p s
      → IsPlain e
      → IsForwarding screen p (drain_step s e).0
        × ((drain_step s e).0.last_mouse ≡ known s.last_mouse e)
  unfolding drain_step observe known
  drain_step-IsForwarding s (InputEvent.mouse (MouseEvent.move x y)) f h = ground arith
  drain_step-IsForwarding s (InputEvent.mouse (MouseEvent.move_relative x y)) f h = ground arith
  drain_step-IsForwarding s (InputEvent.mouse (MouseEvent.button b state)) f h = ground arith
  drain_step-IsForwarding s (InputEvent.mouse (MouseEvent.scroll d)) f h = ground arith
  drain_step-IsForwarding s (InputEvent.key k) f h = ground arith
  drain_step-IsForwarding s e f h = ground arith

  drain_step-sends :
      (s : Server) (e : InputEvent)
      → IsForwarding screen p s
      → IsPlain e
      → channel (drain_step s e).1 ≡ map from_input (sends s.last_mouse e)
  unfolding drain_step observe apply_decision forward_delta channel sends from_input
  drain_step-sends s (InputEvent.mouse (MouseEvent.move x y)) f h = ground arith
  drain_step-sends s (InputEvent.mouse (MouseEvent.move_relative x y)) f h = ground arith
  drain_step-sends s (InputEvent.mouse (MouseEvent.button b state)) f h = ground arith
  drain_step-sends s (InputEvent.mouse (MouseEvent.scroll d)) f h = ground arith
  drain_step-sends s (InputEvent.key k) f h = ground arith
  drain_step-sends s e f h = ground arith

  drain_step-channel :
      (s : Server) (e : InputEvent)
      → IsForwarding screen p s
      → IsNearKnown s.last_mouse
      → IsPlain e
      → channel (drain_step s e).1 ≡ map from_input (arriving s.last_mouse e)
  drain_step-channel s e f near h =
      drain_step-sends s e f h ∙ ap (map from_input) (sends-arriving s.last_mouse e near h.2)

  pub run-channel :
      (s : Server) (es : List InputEvent)
      → IsForwarding screen p s
      → IsNearKnown s.last_mouse
      → All IsPlain es
      → channel (run s (map captured es)).1 ≡ map from_input (cable s.last_mouse es)
  unfolding run step channel cable
  run-channel s [] f near h = refl
  run-channel s (e ∷ es) f near h =
      let next = drain_step-IsForwarding s e f h.0 in
      let later = subst IsNearKnown (sym next.1) (known-IsNear s.last_mouse e near h.0.2) in
      let ih = run-channel (drain_step s e).0 es next.0 later h.1 in
      channel-append (drain_step s e).1 (run (drain_step s e).0 (map captured es)).1
      ∙ (rw (drain_step-channel s e f near h.0, ih, next.1)
          (sym (map-append from_input (arriving s.last_mouse e) (cable (known s.last_mouse e) es))))

arriving-IsDevice :
    (last : Option Point) (e : InputEvent) → IsDevice e → All IsDevice (arriving last e)
unfolding arriving
arriving-IsDevice last (InputEvent.mouse (MouseEvent.move x y)) h = ground arith
arriving-IsDevice last (InputEvent.mouse (MouseEvent.move_relative x y)) h = (tt, tt)
arriving-IsDevice last (InputEvent.mouse (MouseEvent.button b state)) h = (tt, tt)
arriving-IsDevice last (InputEvent.mouse (MouseEvent.scroll d)) h = (tt, tt)
arriving-IsDevice last (InputEvent.key k) h = (tt, tt)
arriving-IsDevice last e h = (h, tt)

pub cable-IsDevice :
    (last : Option Point) (es : List InputEvent) → All IsPlain es → All IsDevice (cable last es)
unfolding cable
cable-IsDevice last [] h = tt
cable-IsDevice last (e ∷ es) h =
    All-append IsDevice (arriving last e) (cable (known last e) es) (arriving-IsDevice last e h.0.0)
      (cable-IsDevice (known last e) es h.1)

-- Every message is small enough for a frame.
abbrev pub Fits : Bincode → List Message → Type 0
Fits b ms = All (λ m. (bytes : List ℕ) × (encode_frame b m ≡ ok bytes)) ms

pub sent-all : (b : Bincode) (ms : List Message) → Fits b ms → sent b ms ≡ ms
unfolding sent
sent-all b [] h = refl
sent-all b (m ∷ ms) ((bytes, e), h) =
    rw (sent-ok b m ms bytes e) (ap (λ l. m ∷ l) (sent-all b ms h))

-- The two machines refine a cable: while a server forwards, whose last known position, if any, is
-- within 2^30 of the origin, the events that it captures, none of them the emergency hotkey and
-- each move to a position within 2^30 of the origin, are injected on the client as the cable lets
-- them arrive (a move as its distance, unwrapped and if any, from the position known before, any
-- other event as it is), when the channel takes every message, every message fits a frame, bincode
-- reads back what it wrote, and the fuel exceeds the length of the stream.
pub inbound_loop-refines_cable :
    (b : Bincode) (screen : ScreenId) (p : PeerHandle) (s : Server) (es : List InputEvent)
    (fuel : ℕ)
    → RoundTrips b
    → IsForwarding screen p s
    → IsNearKnown s.last_mouse
    → All IsPlain es
    → Fits b (channel (run s (map captured es)).1)
    → length (write_loop b [] (channel (run s (map captured es)).1)) < fuel
    → inbound_loop true (read_loop b fuel (write_loop b [] (channel (run s (map captured es)).1)))
      ≡ map inject (cable s.last_mouse es)
inbound_loop-refines_cable b screen p s es fuel trips f near h fits enough =
    rw
      (
        read_loop-write_loop b trips (channel (run s (map captured es)).1) fuel enough,
        sent-all b (channel (run s (map captured es)).1) fits,
        run-channel screen p s es f near h,
      )
      (inbound_loop-from_input (cable s.last_mouse es) (cable-IsDevice s.last_mouse es h))
