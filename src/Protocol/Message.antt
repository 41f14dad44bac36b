-- ===== src/Protocol/Message.antt =====
-- crates/protocol/src/message.rs: the payloads, and the translation from input events.
use my_deskflow.Prelude.{ℕ, String, Bool, true, ◌&&◌, List}
use my_deskflow.Prelude.Int.{ℤ}
use my_deskflow.Core.Screen.{PeerId, ScreenId}
use my_deskflow.Core.Modifiers.{ModifierState}
use my_deskflow.Core.Event.{InputEvent, MouseEvent, KeyEvent}
use my_deskflow.Protocol.Header.{MessageType}

-- `[u8; 32]`, a blake3 digest, as the number that its bytes spell.
abbrev pub Digest : Type 0
Digest = ℕ

pub record Capabilities : Type 0 where
  pub clipboard_text : Bool
  pub clipboard_html : Bool
  pub clipboard_image : Bool
  pub clipboard_files : Bool
  pub file_transfer : Bool
  pub zstd_compression : Bool

abbrev pub full : Capabilities
full = record {
  clipboard_text = true;
  clipboard_html = true;
  clipboard_image = true;
  clipboard_files = true;
  file_transfer = true;
  zstd_compression = true;
}

unfoldable pub negotiate : Capabilities → Capabilities → Capabilities
negotiate a b = record {
  clipboard_text = a.clipboard_text && b.clipboard_text;
  clipboard_html = a.clipboard_html && b.clipboard_html;
  clipboard_image = a.clipboard_image && b.clipboard_image;
  clipboard_files = a.clipboard_files && b.clipboard_files;
  file_transfer = a.file_transfer && b.file_transfer;
  zstd_compression = a.zstd_compression && b.zstd_compression;
}

pub record Hello : Type 0 where
  pub peer_id : PeerId
  pub peer_name : String
  pub protocol_version : ℕ  -- u16
  pub capabilities : Capabilities

pub record Welcome : Type 0 where
  pub peer_id : PeerId
  pub peer_name : String
  pub accepted_capabilities : Capabilities
  pub assigned_screen : ScreenId

pub record Goodbye : Type 0 where
  pub reason : String

pub data ClipboardFormat : Type 0 where
  plain_text html rtf png uri_list : ClipboardFormat

pub record ClipboardPayload : Type 0 where
  pub format : ClipboardFormat
  pub bytes : List ℕ
  pub originator : PeerId
  pub hash : Digest

pub record FileEntry : Type 0 where
  pub relative_path : List ℕ  -- the characters of the path
  pub size : ℕ  -- u64
  pub blake3 : Digest

pub record FileManifest : Type 0 where
  pub files : List FileEntry
  pub total_bytes : ℕ  -- u64

pub record FileOffer : Type 0 where
  pub transfer_id : ℕ  -- u64
  pub manifest : FileManifest
  pub compressed : Bool

pub record FileChunk : Type 0 where
  pub transfer_id : ℕ  -- u64
  pub file_index : ℕ  -- u32
  pub offset : ℕ  -- u64
  pub bytes : List ℕ  -- `data`
  pub is_last : Bool

pub data Message : Type 0 where
  hello : Hello → Message
  welcome : Welcome → Message
  goodbye : Goodbye → Message
  mouse_move : ℤ → ℤ → Message
  mouse_move_relative : ℤ → ℤ → Message
  mouse_button : MouseEvent → Message
  mouse_scroll : MouseEvent → Message
  key_event : KeyEvent → Message
  screen_enter : ℤ → ℤ → ModifierState → Message
  screen_leave : ℕ → Message
  modifier_sync : ModifierState → Message
  clipboard_formats : List ClipboardFormat → Digest → Message
  clipboard_request : ClipboardFormat → Message
  clipboard_data : ClipboardPayload → Message
  file_offer_start : FileOffer → Message
  file_chunk : FileChunk → Message
  file_ack : ℕ → ℕ → Message
  file_transfer_cancel : ℕ → String → Message
  ping : ℕ → ℕ → Message
  pong : ℕ → ℕ → Message
  error : ℕ → String → Message

unfoldable pub message_type : Message → MessageType
message_type (hello _) = MessageType.hello
message_type (welcome _) = MessageType.welcome
message_type (goodbye _) = MessageType.goodbye
message_type (mouse_move _ _) = MessageType.mouse_move
message_type (mouse_move_relative _ _) = MessageType.mouse_move_relative
message_type (mouse_button _) = MessageType.mouse_button
message_type (mouse_scroll _) = MessageType.mouse_scroll
message_type (key_event _) = MessageType.key_event
message_type (screen_enter _ _ _) = MessageType.screen_enter
message_type (screen_leave _) = MessageType.screen_leave
message_type (modifier_sync _) = MessageType.modifier_sync
message_type (clipboard_formats _ _) = MessageType.clipboard_formats
message_type (clipboard_request _) = MessageType.clipboard_request
message_type (clipboard_data _) = MessageType.clipboard_data
message_type (file_offer_start _) = MessageType.file_offer_start
message_type (file_chunk _) = MessageType.file_chunk
message_type (file_ack _ _) = MessageType.file_ack
message_type (file_transfer_cancel _ _) = MessageType.file_transfer_cancel
message_type (ping _ _) = MessageType.ping
message_type (pong _ _) = MessageType.pong
message_type (error _ _) = MessageType.error

unfoldable pub from_input : InputEvent → Message
from_input (InputEvent.mouse (MouseEvent.move x y)) = mouse_move x y
from_input (InputEvent.mouse (MouseEvent.move_relative dx dy)) = mouse_move_relative dx dy
from_input (InputEvent.mouse (MouseEvent.button b s)) = mouse_button (MouseEvent.button b s)
from_input (InputEvent.mouse (MouseEvent.scroll d)) = mouse_scroll (MouseEvent.scroll d)
from_input (InputEvent.key k) = key_event k
from_input (InputEvent.screen_enter x y m) = screen_enter x y m
from_input (InputEvent.screen_leave s) = screen_leave s
from_input (InputEvent.modifier_sync m) = modifier_sync m
