-- ===== src/Protocol/Codec/Laws.antt =====
-- Laws of crates/protocol/src/codec.rs.
use my_deskflow.Prelude.{
  String, ℕ, ◌+◌, ◌%◌, ◌^◌, ◌≤◌, ◌≡◌, refl, sym, ap, subst, ◌∙◌, some, List, [], ◌++◌, arith,
  length, length-append, take-append_length, drop-append_length,
}
use mathlib.Core.List.{append_assoc, append-nil}
use my_deskflow.Core.Error.{Result, ok, err, ◌>>=◌, map_err}
use my_deskflow.Protocol.Header.{Header, MessageType, new, encode, decode, type_id}
use my_deskflow.Protocol.Header.Laws.{decode-encode, from_u16-type_id, type_id-lt, length-encode}
use my_deskflow.Protocol.Message.{Message, message_type}
use my_deskflow.Protocol.Codec.{
  Bincode, RoundTrips, max_payload_size, encode_frame, frame_payload, decode_frame, decode_body,
  decode_payload, write_frame, append_payload, FrameError,
}

-- The header of a frame of a payload of `n` bytes is read back.
pub decode-encode-new :
    (t : MessageType) (n : ℕ) → n ≤ max_payload_size → decode (encode (new t n)) ≡ new t n
unfolding new
decode-encode-new t n h =
    decode-encode (new t n)
      (record { version_fits = omega arith; type_fits = type_id-lt t; length_fits = omega arith })

-- A frame buffer that starts with an encoded header is decoded under that header.
pub decode_frame-header :
    (b : Bincode) (h : Header) (body : List ℕ)
    → decode (encode h) ≡ h
    → decode_frame b (encode h ++ body) ≡ decode_body b h (encode h ++ body)
unfolding decode_frame
decode_frame-header b h body e = ground (
  arith,
  length-append {0} (encode h) body,
  length-encode h,
  take-append_length (encode h) body 12 (length-encode h),
  e,
)

frame_payload-ok :
    (m : Message) (payload bytes : List ℕ)
    → frame_payload m payload ≡ ok bytes
    → (length payload ≤ max_payload_size)
      × (bytes ≡ encode (new (message_type m) (length payload)) ++ payload)
unfolding frame_payload
frame_payload-ok m payload bytes h = (ground arith, ground arith)

-- What a successful `encode_frame` returns.
pub encode_frame-ok :
    (b : Bincode) (m : Message) (bytes : List ℕ)
    → encode_frame b m ≡ ok bytes
    → (payload : List ℕ) × (b.serialize m ≡ ok payload)
      × (length payload ≤ max_payload_size)
      × (bytes ≡ encode (new (message_type m) (length payload)) ++ payload)
unfolding encode_frame
encode_frame-ok b m bytes h = go (b.serialize m) refl h
  where
    go :
        (r : Result String (List ℕ))
        → b.serialize m ≡ r
        → (map_err FrameError.bincode_error r >>= frame_payload m) ≡ ok bytes
        → (payload : List ℕ) × (b.serialize m ≡ ok payload)
          × (length payload ≤ max_payload_size)
          × (bytes ≡ encode (new (message_type m) (length payload)) ++ payload)
    go (err e) p q = cc
    go (ok payload) p q =
        let (small, framed) = frame_payload-ok m payload bytes q in (payload, p, small, framed)

-- The body of a whole frame is reached past every guard.
decode_body-whole :
    (b : Bincode) (t : MessageType) (payload rest : List ℕ)
    → length payload ≤ max_payload_size
    → decode_body b (new t (length payload)) (encode (new t (length payload)) ++ (payload ++ rest))
      ≡ decode_payload b (some t) (type_id t) (12 + length payload) payload
unfolding decode_body new
decode_body-whole b t payload rest h =
    let head = encode (new t (length payload)) in
    ground (
      arith,
      length-append {0} head (payload ++ rest),
      length-append {0} payload rest,
      length-encode (new t (length payload)),
      drop-append_length head (payload ++ rest) 12 (length-encode (new t (length payload))),
      take-append_length payload rest (length payload) refl,
      from_u16-type_id t,
    )

decode_frame-whole :
    (b : Bincode) (t : MessageType) (payload rest : List ℕ)
    → length payload ≤ max_payload_size
    → decode_frame b (encode (new t (length payload)) ++ (payload ++ rest))
      ≡ decode_payload b (some t) (type_id t) (12 + length payload) payload
decode_frame-whole b t payload rest h =
    decode_frame-header b (new t (length payload)) (payload ++ rest)
      (decode-encode-new t (length payload) h)
    ∙ decode_body-whole b t payload rest h

-- Decoding the bytes of an encoded message, whatever follows them, gives the message back and
-- consumes exactly those bytes, when bincode reads back what it wrote.
pub decode_frame-encode_frame :
    (b : Bincode)
    → RoundTrips b
    → (m : Message) (bytes rest : List ℕ) → encode_frame b m ≡ ok bytes
    → decode_frame b (bytes ++ rest) ≡ ok (some (m, length bytes))
unfolding decode_payload
decode_frame-encode_frame b r m bytes rest h =
    let (payload, serialized, small, framed) = encode_frame-ok b m bytes h in
    let head = encode (new (message_type m) (length payload)) in
    rw framed (
      rw (append_assoc head payload rest) (
        rw (decode_frame-whole b (message_type m) payload rest small) (
          rw (r.deserialize-serialize m payload serialized) (
            rw (length-append {0} head payload)
              (rw (length-encode (new (message_type m) (length payload))) refl)))))

-- `write_frame` appends exactly the bytes of `encode_frame`, and fails where it fails.
pub write_frame-eq-append :
    (b : Bincode) (buf : List ℕ) (m : Message)
    → write_frame b buf m ≡ (encode_frame b m >>= λ bytes. ok (buf ++ bytes))
unfolding write_frame encode_frame append_payload frame_payload
write_frame-eq-append b buf m = go (map_err FrameError.bincode_error (b.serialize m))
  where
    go :
        (r : Result FrameError (List ℕ))
        → (r >>= append_payload buf m) ≡ (r >>= frame_payload m >>= λ bytes. ok (buf ++ bytes))
    go (err e) = refl
    go (ok payload) =
        ground (
          arith,
          append_assoc buf (encode (new (message_type m) (length payload % 2 ^ 32))) payload,
        )

-- No frame is longer than its header and the cap on a payload.
pub length-encode_frame :
    (b : Bincode) (m : Message) (bytes : List ℕ)
    → encode_frame b m ≡ ok bytes
    → (12 ≤ length bytes) × (length bytes ≤ 12 + max_payload_size)
length-encode_frame b m bytes h =
    let (payload, serialized, small, framed) = encode_frame-ok b m bytes h in
    let header = new (message_type m) (length payload) in
    let e : length bytes ≡ 12 + length payload =
      ap length framed
      ∙ (length-append {0} (encode header) payload
          ∙ ap (λ n. n + length payload) (length-encode header)) in
    (omega arith, omega arith)

-- The type id of the header is looked up, and not compared with the payload.
pub decode_frame_type_unused :
    (b : Bincode) (t u : MessageType) (payload : List ℕ)
    → length payload ≤ max_payload_size
    → decode_frame b (encode (new t (length payload)) ++ payload)
      ≡ decode_frame b (encode (new u (length payload)) ++ payload)
unfolding decode_payload
decode_frame_type_unused b t u payload h =
    let whole = λ (t : MessageType).
      subst
        (λ p.
          decode_frame b (encode (new t (length payload)) ++ p)
          ≡ decode_payload b (some t) (type_id t) (12 + length payload) payload)
        (append-nil payload) (decode_frame-whole b t payload [] h) in
    whole t ∙ sym (whole u)
