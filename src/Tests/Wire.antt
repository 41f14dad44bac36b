-- ===== src/Tests/Wire.antt =====
-- Frames of crates/protocol at concrete messages, over a small stand-in for bincode.
use my_deskflow.Prelude.{
  ℕ, ◌≡◌, ◌≢◌, refl, String, none, some, List, [], ◌∷◌, ◌++◌, arith, length, take,
}
use my_deskflow.Core.Error.{Result, ok, err}
use my_deskflow.Protocol.Header.{
  Header, MessageType, new, encode, decode, magic_bytes, type_id, from_u16,
}
use my_deskflow.Protocol.Header.Laws.{decode-encode}
use my_deskflow.Protocol.Message.{Message, ping, message_type}
use my_deskflow.Protocol.Codec.{Bincode, RoundTrips, encode_frame, decode_frame}
use my_deskflow.Protocol.Codec.Laws.{decode_frame-encode_frame}
use my_deskflow.Protocol.Codec.Partial.{decode_frame-take, decode_frame-IsFrame, IsFrame}
use my_deskflow.Protocol.Stream.{read_message}
use my_deskflow.Protocol.Stream.Sessions.{read_message_allocates}

-- Pings alone are serialised, as their two numbers.
unfoldable pub serialize_ping : Message → Result String (List ℕ)
serialize_ping (ping nonce time) = ok (nonce ∷ time ∷ [])
serialize_ping m = err "unsupported"

unfoldable pub deserialize_ping : List ℕ → Result String Message
deserialize_ping (nonce ∷ time ∷ []) = ok (ping nonce time)
deserialize_ping bytes = err "unsupported"

abbrev pub pings : Bincode
pings = record { serialize = serialize_ping; deserialize = deserialize_ping }

deserialize_ping-serialize_ping :
    (m : Message) (bytes : List ℕ) → serialize_ping m ≡ ok bytes → deserialize_ping bytes ≡ ok m
unfolding serialize_ping deserialize_ping
deserialize_ping-serialize_ping (ping nonce time) bytes e = ground arith
deserialize_ping-serialize_ping m bytes e = cc

pub pings-RoundTrips : RoundTrips pings
pings-RoundTrips = record { deserialize-serialize = deserialize_ping-serialize_ping }

abbrev pub frame : List ℕ
frame = b'I' ∷ b'S' ∷ b'Y' ∷ b'N' ∷ 0 ∷ 1 ∷ 0x0F ∷ 0 ∷ 0 ∷ 0 ∷ 0 ∷ 2 ∷ 42 ∷ 7 ∷ []

encode_ping : encode_frame pings (ping 42 7) ≡ ok frame
unfolding encode_frame encode new type_id message_type serialize_ping
encode_ping = refl

decode_ping : decode_frame pings frame ≡ ok (some (ping 42 7, 14))
unfolding decode_frame decode from_u16 deserialize_ping
decode_ping = refl

decode-encode_example : decode (encode (new MessageType.ping 300)) ≡ new MessageType.ping 300
unfolding new type_id
decode-encode_example = decode-encode (new MessageType.ping 300) (omega arith)

decode_frame-encode_frame_example :
    decode_frame pings (frame ++ (1 ∷ 2 ∷ [])) ≡ ok (some (ping 42 7, length frame))
decode_frame-encode_frame_example =
    decode_frame-encode_frame pings pings-RoundTrips (ping 42 7) frame (1 ∷ 2 ∷ []) encode_ping

decode_frame-take_example : decode_frame pings (take 13 frame) ≡ ok none
decode_frame-take_example = decode_frame-take pings (ping 42 7) frame 13 encode_ping (omega arith)

decode_frame-IsFrame_example : IsFrame pings frame (ping 42 7) 14
decode_frame-IsFrame_example = decode_frame-IsFrame pings frame (ping 42 7) 14 decode_ping

abbrev huge : Header
huge = record { magic = magic_bytes; version = 1; message_type = 0x0F00; length = 4294967295 }

read_message_allocates_example :
    ((read_message pings (encode huge ++ [])).allocated ≡ 4294967295)
    × ((x : Message × List ℕ) → (read_message pings (encode huge ++ [])).outcome ≢ ok x)
read_message_allocates_example = read_message_allocates pings huge [] (omega arith) (omega arith)
