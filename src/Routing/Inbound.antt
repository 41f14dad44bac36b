-- ===== src/Routing/Inbound.antt =====
-- crates/daemon/src/session.rs, `inbound_loop` and `resync_modifiers`: what a peer's messages make
-- this machine do. The clipboard and file managers are named by the actions that hand over to them.
pub mod Replay
pub mod Modifiers
use my_deskflow.Prelude.{ℕ, Bool, true, false, none, List, [], ◌∷◌, ◌++◌, if◌then◌else◌}
use my_deskflow.Core.Modifiers.{ModifierState, shift, ctrl, alt, super, contains}
use my_deskflow.Core.Event.{
  InputEvent, MouseEvent, KeyEvent, KeyCode, pressed, left_shift, left_ctrl, left_alt, left_super,
}
use my_deskflow.Protocol.Message.{Message, FileOffer, FileChunk}

pub data Action : Type 0 where
  inject : InputEvent → Action
  release_all_modifiers : Action
  reply : Message → Action
  to_clipboard : Message → Action
  handle_offer : FileOffer → Action
  handle_chunk : FileChunk → Action

-- The key press of one round of the loop in `resync_modifiers`.
press : ModifierState → ModifierState → KeyCode → List Action
press target flag code =
    if contains target flag
    then (inject (
          InputEvent.key
            (record { code = code; state = pressed; modifiers = target; character = none }))
        ∷ [])
    else []

unfoldable pub resync_modifiers : ModifierState → List Action
unfolding press
resync_modifiers target =
    release_all_modifiers
    ∷ (press target shift left_shift
        ++ (press target ctrl left_ctrl
            ++ (press target alt left_alt ++ press target super left_super)))

-- The arms that stand under `if is_client`.
client_only : Message → List Action
unfolding resync_modifiers
client_only (Message.mouse_move x y) = inject (InputEvent.mouse (MouseEvent.move x y)) ∷ []
client_only (Message.mouse_move_relative dx dy) =
    inject (InputEvent.mouse (MouseEvent.move_relative dx dy)) ∷ []
client_only (Message.mouse_button e) = inject (InputEvent.mouse e) ∷ []
client_only (Message.mouse_scroll e) = inject (InputEvent.mouse e) ∷ []
client_only (Message.key_event k) = inject (InputEvent.key k) ∷ []
client_only (Message.screen_enter x y modifiers) =
    inject (InputEvent.mouse (MouseEvent.move x y)) ∷ resync_modifiers modifiers
client_only (Message.screen_leave _) = release_all_modifiers ∷ []
client_only (Message.modifier_sync m) = resync_modifiers m
client_only _ = []

-- One round of `inbound_loop`.
unfoldable pub inbound_step : Bool → Message → List Action
unfolding client_only
inbound_step is_client (Message.ping nonce timestamp_ms) =
    reply (Message.pong nonce timestamp_ms) ∷ []
inbound_step is_client (Message.pong _ _) = []
inbound_step is_client (Message.clipboard_formats fs h) =
    to_clipboard (Message.clipboard_formats fs h) ∷ []
inbound_step is_client (Message.clipboard_request f) =
    to_clipboard (Message.clipboard_request f) ∷ []
inbound_step is_client (Message.clipboard_data p) = to_clipboard (Message.clipboard_data p) ∷ []
inbound_step is_client (Message.file_offer_start o) = handle_offer o ∷ []
inbound_step is_client (Message.file_chunk c) = handle_chunk c ∷ []
inbound_step true msg = client_only msg
inbound_step false msg = []

-- `inbound_loop`: the messages in the order of their arrival.
unfoldable pub inbound_loop : Bool → List Message → List Action
inbound_loop is_client [] = []
inbound_loop is_client (m ∷ ms) = inbound_step is_client m ++ inbound_loop is_client ms
