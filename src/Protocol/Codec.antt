-- ===== src/Protocol/Codec.antt =====
-- crates/protocol/src/codec.rs: frames, a header and a payload that `bincode` serialises.
-- `bincode` is not part of the repository: it is the parameter `Bincode`, and `RoundTrips` states
-- that it reads back what it wrote.
pub mod Laws
pub mod Partial
use my_deskflow.Prelude.{
  ℕ, ◌*◌, ◌+◌, ◌-◌, ◌%◌, ◌^◌, String, ◌≡◌, Option, none, some, List, ◌++◌, ltb, not, ◌==◌, length,
  take, drop, if◌then◌else◌,
}
use my_deskflow.Core.Error.{Result, ok, err, ◌>>=◌, map_err}
use my_deskflow.Protocol.Header.{
  Header, Magic, MessageType, header_size, magic_bytes, same_magic, protocol_version, encode,
  decode, from_u16, new,
}
use my_deskflow.Protocol.Message.{Message, message_type}

-- `bincode::serialize` and `bincode::deserialize`; a `bincode::Error` carries its text.
pub record Bincode : Type 0 where
  pub serialize : Message → Result String (List ℕ)
  pub deserialize : List ℕ → Result String Message

pub record RoundTrips (b : Bincode) : Type 0 where
  pub deserialize-serialize :
      (m : Message) (bytes : List ℕ) → b.serialize m ≡ ok bytes → b.deserialize bytes ≡ ok m

abbrev pub max_payload_size : ℕ
max_payload_size = 64 * 1024 * 1024

pub data FrameError : Type 0 where
  bad_magic : Magic → FrameError
  unsupported_version : ℕ → ℕ → FrameError
  unknown_message_type : ℕ → FrameError
  payload_too_large : ℕ → FrameError
  bincode_error : String → FrameError

-- `encode_frame` once the payload is serialised; `payload.len() as u32` keeps 32 bits.
pub frame_payload : Message → List ℕ → Result FrameError (List ℕ)
frame_payload msg payload =
    if ltb max_payload_size (length payload)
    then err (payload_too_large (length payload % 2 ^ 32))
    else ok (encode (new (message_type msg) (length payload % 2 ^ 32)) ++ payload)

unfoldable pub encode_frame : Bincode → Message → Result FrameError (List ℕ)
unfolding frame_payload
encode_frame b msg = map_err bincode_error (b.serialize msg) >>= frame_payload msg

-- `write_frame`, which appends to a buffer: the payload is framed as in `encode_frame`.
pub append_payload : List ℕ → Message → List ℕ → Result FrameError (List ℕ)
append_payload buf msg payload =
    if ltb max_payload_size (length payload)
    then err (payload_too_large (length payload % 2 ^ 32))
    else (let header = new (message_type msg) (length payload % 2 ^ 32) in
        ok ((buf ++ encode header) ++ payload))

unfoldable pub write_frame : Bincode → List ℕ → Message → Result FrameError (List ℕ)
unfolding append_payload
write_frame b buf msg = map_err bincode_error (b.serialize msg) >>= append_payload buf msg

-- The end of `decode_frame`: the type id is looked up, and the payload deserialised.
pub decode_payload :
    Bincode → Option MessageType → ℕ → ℕ → List ℕ → Result FrameError (Option (Message × ℕ))
decode_payload b none id total payload = err (unknown_message_type id)
decode_payload b (some _) id total payload =
    map_err bincode_error (b.deserialize payload) >>= λ msg. ok (some (msg, total))

-- `decode_frame` once the buffer is known to hold a whole header.
pub decode_body : Bincode → Header → List ℕ → Result FrameError (Option (Message × ℕ))
unfolding decode_payload
decode_body b header buf =
    if not (same_magic header.magic magic_bytes)
    then err (bad_magic header.magic)
    else if not (header.version == protocol_version)
    then err (unsupported_version protocol_version header.version)
    else if ltb max_payload_size header.length
    then err (payload_too_large header.length)
    else if ltb (length buf) (header_size + header.length)
    then ok none
    else decode_payload b (from_u16 header.message_type) header.message_type
        (header_size + header.length) (take header.length (drop header_size buf))

unfoldable pub decode_frame : Bincode → List ℕ → Result FrameError (Option (Message × ℕ))
unfolding decode_body
decode_frame b buf =
    if ltb (length buf) header_size
    then ok none
    else decode_body b (decode (take header_size buf)) buf
