-- ===== src/Protocol/Codec/Partial.antt =====
-- crates/protocol/src/codec.rs, `decode_frame` on a buffer that holds less than a frame, and what a
-- decoded frame says of the buffer.
use my_deskflow.Prelude.{
  ℕ, ◌+◌, ◌-◌, ◌≤◌, ◌<◌, ◌≡◌, refl, ap, ◌∙◌, Option, none, some, List, ◌++◌, arith, length, take,
  drop, length-append, length-take, Bool-cases, true, inl, inr, ltb, take-append_ge,
}
use my_deskflow.Core.Error.{ok}
use my_deskflow.Protocol.Header.{
  Header, MessageType, new, encode, decode, from_u16, same_magic, magic_bytes,
}
use my_deskflow.Protocol.Header.Laws.{length-encode}
use my_deskflow.Protocol.Message.{Message, message_type}
use my_deskflow.Protocol.Codec.{
  Bincode, max_payload_size, encode_frame, decode_frame, decode_body, decode_payload,
}
use my_deskflow.Protocol.Codec.Laws.{encode_frame-ok, decode_frame-header, decode-encode-new}

decode_frame-short : (b : Bincode) (buf : List ℕ) → length buf < 12 → decode_frame b buf ≡ ok none
unfolding decode_frame
decode_frame-short b buf h = ground arith

-- A header and fewer bytes than it announces.
decode_body-short :
    (b : Bincode) (t : MessageType) (n : ℕ) (body : List ℕ)
    → n ≤ max_payload_size
    → length body < n
    → decode_body b (new t n) (encode (new t n) ++ body) ≡ ok none
unfolding decode_body new
decode_body-short b t n body h less =
    ground (arith, length-append {0} (encode (new t n)) body, length-encode (new t n))

-- Every proper prefix of a frame is taken for incomplete: the caller reads on and loses nothing.
pub decode_frame-take :
    (b : Bincode) (m : Message) (bytes : List ℕ) (k : ℕ)
    → encode_frame b m ≡ ok bytes
    → k < length bytes
    → decode_frame b (take k bytes) ≡ ok none
decode_frame-take b m bytes k h less =
    let (payload, serialized, small, framed) = encode_frame-ok b m bytes h in
    let header = new (message_type m) (length payload) in
    let total : length bytes ≡ 12 + length payload =
      ap length framed
      ∙ (length-append {0} (encode header) payload
          ∙ ap (λ n. n + length payload) (length-encode header)) in
    elim (Bool-cases (ltb k 12)) [
      | inl early ↦ decode_frame-short b (take k bytes) (ground (arith, length-take {0} k bytes))
      | inr late ↦
          let cut : take k bytes ≡ encode header ++ take (k - 12) payload =
            ap (take k) framed
            ∙ (take-append_ge k (encode header) payload (ground (arith, length-encode header))
                ∙ ap (λ n. encode header ++ take (k - n) payload) (length-encode header)) in
          rw cut (
            decode_frame-header b header (take (k - 12) payload)
              (decode-encode-new (message_type m) (length payload) small)
            ∙ decode_body-short b (message_type m) (length payload) (take (k - 12) payload) small
                (ground (arith, length-take {0} (k - 12) payload)))
    ]

-- What the head of a buffer holds when a frame of `n` bytes was decoded from it.
pub record IsFrame (b : Bincode) (buf : List ℕ) (m : Message) (n : ℕ) : Type 0 where
  pub whole : n ≤ length buf
  pub sized : n ≡ 12 + (decode (take 12 buf)).length
  pub capped : (decode (take 12 buf)).length ≤ max_payload_size
  pub stamped : same_magic (decode (take 12 buf)).magic magic_bytes ≡ true
  pub versioned : (decode (take 12 buf)).version ≡ 1
  pub known : (t : MessageType) × (from_u16 (decode (take 12 buf)).message_type ≡ some t)
  pub read : b.deserialize (take (decode (take 12 buf)).length (drop 12 buf)) ≡ ok m

decode_payload-ok :
    (b : Bincode) (t : Option MessageType) (id total : ℕ) (payload : List ℕ) (m : Message) (n : ℕ)
    → decode_payload b t id total payload ≡ ok (some (m, n))
    → (n ≡ total) × ((t' : MessageType) × (t ≡ some t')) × (b.deserialize payload ≡ ok m)
unfolding decode_payload
decode_payload-ok b none id total payload m n h = cc
decode_payload-ok b (some t) id total payload m n h = (ground arith, (t, refl), ground arith)

-- The guards that `decode_body` passed.
decode_body-ok :
    (b : Bincode) (header : Header) (buf : List ℕ) (m : Message) (n : ℕ)
    → decode_body b header buf ≡ ok (some (m, n))
    → (same_magic header.magic magic_bytes ≡ true)
      × (header.version ≡ 1)
      × (header.length ≤ max_payload_size)
      × (12 + header.length ≤ length buf)
      × (decode_payload b
            (from_u16 header.message_type)
            header.message_type
            (12 + header.length)
            (take header.length (drop 12 buf))
          ≡ ok (some (m, n)))
unfolding decode_body
decode_body-ok b header buf m n h =
    (ground arith, ground arith, ground arith, ground arith, ground arith)

-- A decoded frame lies whole in the buffer behind a valid header, and is at most a header and 64 MiB.
pub decode_frame-IsFrame :
    (b : Bincode) (buf : List ℕ) (m : Message) (n : ℕ)
    → decode_frame b buf ≡ ok (some (m, n))
    → IsFrame b buf m n
unfolding decode_frame
decode_frame-IsFrame b buf m n h =
    let header = decode (take 12 buf) in
    let body : decode_body b header buf ≡ ok (some (m, n)) = ground arith in
    let (stamp, version, cap, fits, payload) = decode_body-ok b header buf m n body in
    let (total, known, read) =
      decode_payload-ok b (from_u16 header.message_type) header.message_type (12 + header.length)
        (take header.length (drop 12 buf)) m n payload in
    record {
      whole = omega arith;
      sized = total;
      capped = cap;
      stamped = stamp;
      versioned = version;
      known = known;
      read = read;
    }
