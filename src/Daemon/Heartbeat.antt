-- ===== src/Daemon/Heartbeat.antt =====
-- crates/daemon/src/heartbeat.rs: the pings of a peer. A tick is the clock in milliseconds with
-- whether the peer's channel takes the message then; the first tick, at once, sends nothing.
use my_deskflow.Prelude.{
  ℕ, ◌+◌, ◌%◌, ◌^◌, ◌≡◌, refl, ap, Bool, true, false, List, [], ◌∷◌, leb, map, if◌then◌else◌,
}
use my_deskflow.Protocol.Message.{Message}
use my_deskflow.Routing.Inbound.{Action, reply, inbound_step, inbound_loop}

-- `interval_ms.max(500)`.
abbrev pub period : ℕ → ℕ
period interval_ms = if leb interval_ms 500 then 500 else interval_ms

-- The messages of the ticks behind a nonce; the task ends with the first that is not taken.
unfoldable pub pings : ℕ → List (ℕ × Bool) → List Message
pings nonce [] = []
pings nonce ((timestamp_ms, taken) ∷ ticks) =
    let nonce' = (nonce + 1) % 2 ^ 64 in
    let later = pings nonce' ticks in if taken then Message.ping nonce' timestamp_ms ∷ later else []

-- `spawn_heartbeat`.
unfoldable pub spawn_heartbeat : List (ℕ × Bool) → List Message
unfolding pings
spawn_heartbeat ticks = pings 0 ticks

-- The answer to a ping.
abbrev pub pong_for : Message → Action
pong_for (Message.ping nonce timestamp_ms) = reply (Message.pong nonce timestamp_ms)
pong_for m = reply m

-- Either side answers the pings of a heartbeat one by one, with their numbers and times, and does
-- nothing else.
pub inbound_loop-pings :
    (is_client : Bool) (nonce : ℕ) (ticks : List (ℕ × Bool))
    → inbound_loop is_client (pings nonce ticks) ≡ map pong_for (pings nonce ticks)
unfolding inbound_loop inbound_step pings
inbound_loop-pings is_client nonce [] = refl
inbound_loop-pings is_client nonce ((timestamp_ms, true) ∷ ticks) =
    ap (λ l. reply (Message.pong ((nonce + 1) % 2 ^ 64) timestamp_ms) ∷ l)
      (inbound_loop-pings is_client ((nonce + 1) % 2 ^ 64) ticks)
inbound_loop-pings is_client nonce ((timestamp_ms, false) ∷ ticks) = refl
