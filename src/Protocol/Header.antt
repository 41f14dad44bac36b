-- ===== src/Protocol/Header.antt =====
-- crates/protocol/src/header.rs: the fixed 12-byte frame header and the message type ids.
-- A byte is a number below 256, an array is a list; a shift by 8 bits is a division by 256.
pub mod Laws
use my_deskflow.Prelude.{
  ℕ, zero, suc, ◌*◌, ◌+◌, ◌/◌, ◌%◌, Bool, ◌&&◌, Option, none, some, List, [], ◌∷◌, ◌==◌,
  if◌then◌else◌,
}

-- `[u8; 4]`.
pub record Magic : Type 0 where
  pub m0 : ℕ
  pub m1 : ℕ
  pub m2 : ℕ
  pub m3 : ℕ

-- "ISYN".
abbrev pub magic_bytes : Magic
magic_bytes = record { m0 = b'I'; m1 = b'S'; m2 = b'Y'; m3 = b'N' }

abbrev pub same_magic : Magic → Magic → Bool
same_magic a b = a.m0 == b.m0 && (a.m1 == b.m1 && (a.m2 == b.m2 && a.m3 == b.m3))

abbrev pub protocol_version : ℕ
protocol_version = 1

pub record Header : Type 0 where
  pub magic : Magic
  pub version : ℕ  -- u16
  pub message_type : ℕ  -- u16
  pub length : ℕ  -- u32

-- `Header::SIZE`.
abbrev pub header_size : ℕ
header_size = 12

pub data MessageType : Type 0 where
  hello welcome goodbye : MessageType
  mouse_move mouse_move_relative mouse_button mouse_scroll key_event : MessageType
  screen_enter screen_leave modifier_sync : MessageType
  clipboard_formats clipboard_request clipboard_data : MessageType
  file_offer_start file_chunk file_ack file_transfer_cancel : MessageType
  ping pong error : MessageType

-- `message_type as u16`.
unfoldable pub type_id : MessageType → ℕ
type_id hello = 0x0001
type_id welcome = 0x0002
type_id goodbye = 0x0003
type_id mouse_move = 0x0100
type_id mouse_move_relative = 0x0104
type_id mouse_button = 0x0101
type_id mouse_scroll = 0x0102
type_id key_event = 0x0103
type_id screen_enter = 0x0110
type_id screen_leave = 0x0111
type_id modifier_sync = 0x0112
type_id clipboard_formats = 0x0200
type_id clipboard_request = 0x0201
type_id clipboard_data = 0x0202
type_id file_offer_start = 0x0300
type_id file_chunk = 0x0301
type_id file_ack = 0x0302
type_id file_transfer_cancel = 0x0303
type_id ping = 0x0F00
type_id pong = 0x0F01
type_id error = 0x0F02

-- The arms of the `match` in `from_u16`, in two halves.
from_u16_control : ℕ → Option MessageType
from_u16_control v =
    if v == 0x0200
    then some clipboard_formats
    else if v == 0x0201
    then some clipboard_request
    else if v == 0x0202
    then some clipboard_data
    else if v == 0x0300
    then some file_offer_start
    else if v == 0x0301
    then some file_chunk
    else if v == 0x0302
    then some file_ack
    else if v == 0x0303
    then some file_transfer_cancel
    else if v == 0x0F00
    then some ping
    else if v == 0x0F01
    then some pong
    else if v == 0x0F02
    then some error
    else none

unfoldable pub from_u16 : ℕ → Option MessageType
unfolding from_u16_control
from_u16 v =
    if v == 0x0001
    then some hello
    else if v == 0x0002
    then some welcome
    else if v == 0x0003
    then some goodbye
    else if v == 0x0100
    then some mouse_move
    else if v == 0x0104
    then some mouse_move_relative
    else if v == 0x0101
    then some mouse_button
    else if v == 0x0102
    then some mouse_scroll
    else if v == 0x0103
    then some key_event
    else if v == 0x0110
    then some screen_enter
    else if v == 0x0111
    then some screen_leave
    else if v == 0x0112
    then some modifier_sync
    else from_u16_control v

-- `Header::new`.
unfoldable pub new : MessageType → ℕ → Header
new t len = record {
  magic = magic_bytes;
  version = protocol_version;
  message_type = type_id t;
  length = len;
}

-- `u16::to_be_bytes` and `u32::to_be_bytes`, in front of the bytes that follow.
abbrev put_u16 : ℕ → List ℕ → List ℕ
put_u16 v rest = (v / 256 % 256) ∷ (v % 256) ∷ rest

abbrev put_u32 : ℕ → List ℕ → List ℕ
put_u32 v rest = (v / 16777216 % 256) ∷ (v / 65536 % 256) ∷ (v / 256 % 256) ∷ (v % 256) ∷ rest

-- `Header::encode`.
unfoldable pub encode : Header → List ℕ
encode h =
    h.magic.m0
    ∷ h.magic.m1
    ∷ h.magic.m2
    ∷ h.magic.m3
    ∷ put_u16 h.version (put_u16 h.message_type (put_u32 h.length []))

-- The array element `bytes[i]`; the arrays that are read hold twelve bytes.
abbrev pub byte_at : List ℕ → ℕ → ℕ
byte_at [] i = 0
byte_at (b ∷ bs) zero = b
byte_at (b ∷ bs) (suc i) = byte_at bs i

-- `u16::from_be_bytes` and `u32::from_be_bytes`.
abbrev get_u16 : ℕ → ℕ → ℕ
get_u16 hi lo = hi * 256 + lo

abbrev get_u32 : ℕ → ℕ → ℕ → ℕ → ℕ
get_u32 a b c d = a * 16777216 + b * 65536 + c * 256 + d

-- `Header::decode`.
unfoldable pub decode : List ℕ → Header
decode bytes = record {
  magic = record {
    m0 = byte_at bytes 0;
    m1 = byte_at bytes 1;
    m2 = byte_at bytes 2;
    m3 = byte_at bytes 3;
  };
  version = get_u16 (byte_at bytes 4) (byte_at bytes 5);
  message_type = get_u16 (byte_at bytes 6) (byte_at bytes 7);
  length = get_u32 (byte_at bytes 8) (byte_at bytes 9) (byte_at bytes 10) (byte_at bytes 11);
}
