-- ===== src/Routing/Inbound/Replay.antt =====
-- What `inbound_loop` of crates/daemon/src/session.rs replays, and on which side.
use my_deskflow.Prelude.{◌≡◌, refl, ap, true, false, List, [], ◌∷◌, All, All-append, map}
use my_deskflow.Core.Event.{InputEvent, MouseEvent}
use my_deskflow.Protocol.Message.{Message, from_input}
use my_deskflow.Routing.Inbound.{Action, inject, release_all_modifiers, inbound_step, inbound_loop}

-- The action touches the local keyboard or mouse.
abbrev pub IsInput : Action → Type 0
IsInput (inject _) = Unit
IsInput release_all_modifiers = Unit
IsInput _ = ⊥

inbound_step-server : (m : Message) → All (λ a. ¬ IsInput a) (inbound_step false m)
unfolding inbound_step
inbound_step-server (Message.ping n t) = (λ h. h, tt)
inbound_step-server (Message.clipboard_formats fs h) = (λ h. h, tt)
inbound_step-server (Message.clipboard_request f) = (λ h. h, tt)
inbound_step-server (Message.clipboard_data p) = (λ h. h, tt)
inbound_step-server (Message.file_offer_start o) = (λ h. h, tt)
inbound_step-server (Message.file_chunk c) = (λ h. h, tt)
inbound_step-server _ = tt

-- No messages of a client, whatever they are, inject input on the server machine.
pub inbound_loop-server : (ms : List Message) → All (λ a. ¬ IsInput a) (inbound_loop false ms)
unfolding inbound_loop
inbound_loop-server [] = tt
inbound_loop-server (m ∷ ms) =
    All-append (λ a. ¬ IsInput a) (inbound_step false m) (inbound_loop false ms)
      (inbound_step-server m) (inbound_loop-server ms)

-- An event that the server forwards as it is: not one of the screen protocol.
abbrev pub IsDevice : InputEvent → Type 0
IsDevice (InputEvent.mouse e) = Unit
IsDevice (InputEvent.key k) = Unit
IsDevice _ = ⊥

inbound_step-from_input :
    (e : InputEvent) → IsDevice e → inbound_step true (from_input e) ≡ inject e ∷ []
unfolding inbound_step from_input
inbound_step-from_input (InputEvent.mouse (MouseEvent.move x y)) h = refl
inbound_step-from_input (InputEvent.mouse (MouseEvent.move_relative dx dy)) h = refl
inbound_step-from_input (InputEvent.mouse (MouseEvent.button b s)) h = refl
inbound_step-from_input (InputEvent.mouse (MouseEvent.scroll d)) h = refl
inbound_step-from_input (InputEvent.key k) h = refl
inbound_step-from_input (InputEvent.screen_enter x y m) h = absurd h
inbound_step-from_input (InputEvent.screen_leave s) h = absurd h
inbound_step-from_input (InputEvent.modifier_sync m) h = absurd h

-- Mouse and key events that a server sends as messages are injected by the client as the very same
-- events, in the same order.
pub inbound_loop-from_input :
    (es : List InputEvent) → All IsDevice es → inbound_loop true (map from_input es) ≡ map inject es
unfolding inbound_loop
inbound_loop-from_input [] h = refl
inbound_loop-from_input (e ∷ es) h =
    rw (inbound_step-from_input e h.0) (ap (λ l. inject e ∷ l) (inbound_loop-from_input es h.1))
