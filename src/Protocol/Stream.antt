-- ===== src/Protocol/Stream.antt =====
-- crates/network/src/stream.rs and the read and write loops of crates/network/src/peer_loop.rs:
-- messages on a byte stream. A stream is the list of the bytes that are still to be read; it ends
-- where the list ends.
pub mod Sessions
pub mod Fuel
use my_deskflow.Prelude.{
  ℕ, zero, suc, ◌+◌, ◌-◌, String, Option, none, some, List, [], ◌∷◌, ◌++◌, leb, ◌==◌, length, take,
  drop, if◌then◌else◌,
}
use my_deskflow.Core.Error.{Error, Result, ok, err, ◌>>=◌, map_err, protocol, network}
use my_deskflow.Protocol.Header.{Header, header_size, decode}
use my_deskflow.Protocol.Message.{Message}
use my_deskflow.Protocol.Codec.{Bincode, FrameError, encode_frame, decode_frame}

-- `write_message`: the bytes that the stream holds afterwards.
unfoldable pub write_message : Bincode → List ℕ → Message → Result Error (List ℕ)
write_message b written msg =
    map_err (λ _. protocol "encode") (encode_frame b msg) >>= λ bytes. ok (written ++ bytes)

-- `read_exact`: the bytes asked for and those that follow, or an error at the end of the stream.
unfoldable pub read_exact : String → ℕ → List ℕ → Result Error (List ℕ × List ℕ)
read_exact what n stream =
    if leb n (length stream) then ok (take n stream, drop n stream) else err (network what)

-- What one call of `read_message` did: its result with the rest of the stream, and how many bytes
-- it allocated for the payload.
pub record Read : Type 0 where
  pub allocated : ℕ
  pub outcome : Result Error (Message × List ℕ)

-- The end of `read_message`: the frame is put together and decoded.
pub finish_read :
    Result FrameError (Option (Message × ℕ)) → List ℕ → Result Error (Message × List ℕ)
finish_read (err e) rest = err (protocol "decode")
finish_read (ok none) rest = err (protocol "decode produced no message")
finish_read (ok (some (msg, consumed))) rest = ok (msg, rest)

-- `if !payload.is_empty() { r.read_exact(&mut payload) }`.
read_payload : ℕ → List ℕ → Result Error (List ℕ × List ℕ)
unfolding read_exact
read_payload len stream = if len == 0 then ok ([], stream) else read_exact "read payload" len stream

-- `read_message` behind the header: a buffer of the announced length is allocated and filled, and
-- only then is the frame decoded.
read_body : Bincode → List ℕ → List ℕ → Read
unfolding read_payload finish_read
read_body b header_buf stream =
    let header = decode header_buf in
    record {
      allocated = header.length;
      outcome = read_payload header.length stream >>= λ read.
          finish_read (decode_frame b (header_buf ++ read.0)) read.1;
    }

read_after : Bincode → Result Error (List ℕ × List ℕ) → Read
unfolding read_body
read_after b (err e) = record { allocated = 0; outcome = err e }
read_after b (ok (header_buf, stream)) = read_body b header_buf stream

unfoldable pub read_message : Bincode → List ℕ → Read
unfolding read_after read_exact
read_message b stream = read_after b (read_exact "read header" header_size stream)

-- `write_loop`: messages are written in order until one cannot be encoded.
unfoldable pub write_loop : Bincode → List ℕ → List Message → List ℕ
write_loop b written [] = written
write_loop b written (m ∷ ms) =
    let next = λ (bytes : List ℕ). write_loop b bytes ms in
    elim (write_message b written m) [ ok bytes ↦ next bytes | err e ↦ written ]

-- `read_loop`: the messages that reach the inbound channel, until a read fails. Each round takes a
-- header at least, so a fuel above the length of the stream is enough.
unfoldable pub read_loop : Bincode → ℕ → List ℕ → List Message
read_loop b zero stream = []
read_loop b (suc fuel) stream =
    let next = λ (rest : List ℕ). read_loop b fuel rest in
    elim (read_message b stream).outcome [ ok (m, rest) ↦ m ∷ next rest | err e ↦ [] ]
