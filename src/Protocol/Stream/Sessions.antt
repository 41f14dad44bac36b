-- ===== src/Protocol/Stream/Sessions.antt =====
-- Laws of crates/network/src/stream.rs and the loops of peer_loop.rs: what is written is read.
use my_deskflow.Prelude.{
  ℕ, zero, suc, ◌+◌, ◌<◌, ◌≡◌, refl, sym, subst, ap, ◌∙◌, Option, none, some, List, [], ◌∷◌, ◌++◌,
  arith, length, take, length-append, take-append_length, drop-append_length, String, inl, inr, ◌≢◌,
}
use mathlib.Core.List.{append_assoc, append-nil}
use my_deskflow.Core.Error.{Error, Result, ok, err, ◌>>=◌, Result-cases}
use my_deskflow.Protocol.Header.{Header, new, encode, decode}
use my_deskflow.Protocol.Header.Laws.{InRange, decode-encode, length-encode}
use my_deskflow.Protocol.Message.{Message, message_type}
use my_deskflow.Protocol.Codec.{
  Bincode, RoundTrips, max_payload_size, FrameError, encode_frame, decode_frame,
}
use my_deskflow.Protocol.Codec.Laws.{
  encode_frame-ok, decode_frame-encode_frame, decode-encode-new, length-encode_frame,
}
use my_deskflow.Protocol.Codec.Partial.{decode_frame-IsFrame}
use my_deskflow.Protocol.Stream.{
  read_exact, finish_read, read_payload, read_body, read_after, read_message, write_message,
  write_loop, read_loop,
}

-- Reading exactly a first part.
read_exact-append :
    (what : String) (xs ys : List ℕ) (n : ℕ)
    → length xs ≡ n
    → read_exact what n (xs ++ ys) ≡ ok (xs, ys)
unfolding read_exact
read_exact-append what xs ys n e =
    ground
      (arith, length-append {0} xs ys, take-append_length xs ys n e, drop-append_length xs ys n e)

read_payload-append :
    (payload rest : List ℕ) → read_payload (length payload) (payload ++ rest) ≡ ok (payload, rest)
unfolding read_payload
read_payload-append [] rest = refl
read_payload-append (x ∷ xs) rest =
    ground (arith, read_exact-append "read payload" (x ∷ xs) rest (suc (length xs)) refl)

-- A stream that starts with an encoded header.
read_message-header :
    (b : Bincode) (h : Header) (stream : List ℕ)
    → read_message b (encode h ++ stream) ≡ read_body b (encode h) stream
unfolding read_message
read_message-header b h stream =
    ap (read_after b) (read_exact-append "read header" (encode h) stream 12 (length-encode h))

-- Reading the bytes of an encoded message gives the message and leaves what follows it.
pub read_message-encode_frame :
    (b : Bincode)
    → RoundTrips b
    → (m : Message) (bytes rest : List ℕ) → encode_frame b m ≡ ok bytes
    → (read_message b (bytes ++ rest)).outcome ≡ ok (m, rest)
unfolding read_body finish_read new
read_message-encode_frame b r m bytes rest h =
    let (payload, serialized, small, framed) = encode_frame-ok b m bytes h in
    let head = encode (new (message_type m) (length payload)) in
    let len : (decode head).length ≡ length payload =
      ap (λ (x : Header). x.length) (decode-encode-new (message_type m) (length payload) small) in
    let whole : decode_frame b (head ++ payload) ≡ ok (some (m, length bytes)) =
      subst (λ s. decode_frame b s ≡ ok (some (m, length bytes))) (append-nil bytes ∙ framed)
        (decode_frame-encode_frame b r m bytes [] h) in
    rw framed (
      rw (append_assoc head payload rest) (
        rw (read_message-header b (new (message_type m) (length payload)) (payload ++ rest))
          (rw len (rw (read_payload-append payload rest) (rw whole refl)))))

-- A message is dropped by `write_loop` only with all that follow it: the messages that are sent
-- are the longest prefix that can be encoded.
unfoldable pub sent : Bincode → List Message → List Message
sent b [] = []
sent b (m ∷ ms) =
    let rest = sent b ms in elim (encode_frame b m) [ ok bytes ↦ m ∷ rest | err e ↦ [] ]

-- The bytes of the messages that are sent.
wire : Bincode → List Message → List ℕ
wire b [] = []
wire b (m ∷ ms) =
    let rest = wire b ms in elim (encode_frame b m) [ ok bytes ↦ bytes ++ rest | err e ↦ [] ]

module _ (b : Bincode) (m : Message) (ms : List Message) where
  wire-ok : (bytes : List ℕ) → encode_frame b m ≡ ok bytes → wire b (m ∷ ms) ≡ bytes ++ wire b ms
  unfolding wire
  wire-ok bytes e = rw (e, wire)

  wire-err : (x : FrameError) → encode_frame b m ≡ err x → wire b (m ∷ ms) ≡ []
  unfolding wire
  wire-err x e = rw (e, wire)

  pub sent-ok : (bytes : List ℕ) → encode_frame b m ≡ ok bytes → sent b (m ∷ ms) ≡ m ∷ sent b ms
  unfolding sent
  sent-ok bytes e = rw (e, sent)

  sent-err : (x : FrameError) → encode_frame b m ≡ err x → sent b (m ∷ ms) ≡ []
  unfolding sent
  sent-err x e = rw (e, sent)

  pub write_loop-ok :
      (written bytes : List ℕ)
      → encode_frame b m ≡ ok bytes
      → write_loop b written (m ∷ ms) ≡ write_loop b (written ++ bytes) ms
  unfolding write_loop write_message
  write_loop-ok written bytes e = rw (e, write_loop, write_message)

  write_loop-err :
      (written : List ℕ) (x : FrameError)
      → encode_frame b m ≡ err x
      → write_loop b written (m ∷ ms) ≡ written
  unfolding write_loop write_message
  write_loop-err written x e = rw (e, write_loop, write_message)

write_loop-eq-wire :
    (b : Bincode) (written : List ℕ) (ms : List Message)
    → write_loop b written ms ≡ written ++ wire b ms
unfolding write_loop wire
write_loop-eq-wire b written [] = sym (append-nil written)
write_loop-eq-wire b written (m ∷ ms) =
    let ih = λ (bytes : List ℕ). write_loop-eq-wire b (written ++ bytes) ms in
    elim (Result-cases (encode_frame b m)) [
      | inl (bytes, e) ↦
          write_loop-ok b m ms written bytes e
          ∙ (ih bytes
              ∙ (append_assoc written bytes (wire b ms)
                  ∙ ap (λ l. written ++ l) (sym (wire-ok b m ms bytes e))))
      | inr (x, p) ↦
          write_loop-err b m ms written x p
          ∙ (sym (append-nil written) ∙ ap (λ l. written ++ l) (sym (wire-err b m ms x p)))
    ]

read_loop-ok :
    (b : Bincode) (fuel : ℕ) (stream : List ℕ) (m : Message) (rest : List ℕ)
    → (read_message b stream).outcome ≡ ok (m, rest)
    → read_loop b (suc fuel) stream ≡ m ∷ read_loop b fuel rest
unfolding read_loop
read_loop-ok b fuel stream m rest e = rw (e, read_loop)

-- At the end of the stream the reader stops.
read_loop-nil : (b : Bincode) (fuel : ℕ) → read_loop b (suc fuel) [] ≡ []
unfolding read_loop read_message
read_loop-nil b fuel = refl

read_loop-wire :
    (b : Bincode)
    → RoundTrips b
    → (fuel : ℕ) (ms : List Message) → length (wire b ms) < fuel
    → read_loop b fuel (wire b ms) ≡ sent b ms
read_loop-wire b r zero ms h = absurd (omega arith)
read_loop-wire b r (suc fuel) [] h = unfold wire sent in read_loop-nil b fuel
read_loop-wire b r (suc fuel) (m ∷ ms) h =
    let ih = λ (less : length (wire b ms) < fuel). read_loop-wire b r fuel ms less in
    elim (Result-cases (encode_frame b m)) [
      | inl (bytes, e) ↦
          let w = wire-ok b m ms bytes e in
          let size : length (wire b (m ∷ ms)) ≡ length bytes + length (wire b ms) =
            ap length w ∙ length-append bytes (wire b ms) in
          rw (w, sent-ok b m ms bytes e)
            (read_loop-ok b fuel (bytes ++ wire b ms) m (wire b ms)
                (read_message-encode_frame b r m bytes (wire b ms) e)
              ∙ ap (λ l. m ∷ l) (ih (omega (arith, (length-encode_frame b m bytes e).0))))
      | inr (x, p) ↦ rw (wire-err b m ms x p, sent-err b m ms x p) (read_loop-nil b fuel)
    ]

-- Over a reliable stream the reader gets exactly the messages that the writer sent, in order: the
-- longest prefix of the messages that can be encoded, when bincode reads back what it wrote and
-- the fuel exceeds the length of the stream.
pub read_loop-write_loop :
    (b : Bincode)
    → RoundTrips b
    → (ms : List Message) (fuel : ℕ) → length (write_loop b [] ms) < fuel
    → read_loop b fuel (write_loop b [] ms) ≡ sent b ms
read_loop-write_loop b r ms fuel h =
    let e = write_loop-eq-wire b [] ms in
    rw e (read_loop-wire b r fuel ms (subst (λ l. length l < fuel) e h))

finish_read-ok :
    (r : Result FrameError (Option (Message × ℕ))) (rest : List ℕ) (x : Message × List ℕ)
    → finish_read r rest ≡ ok x
    → (m : Message) × (n : ℕ) × (r ≡ ok (some (m, n)))
unfolding finish_read
finish_read-ok (err e) rest x h = cc
finish_read-ok (ok none) rest x h = cc
finish_read-ok (ok (some (m, n))) rest x h = (m, n, refl)

-- A payload above the cap is never accepted.
finish_read-capped :
    (b : Bincode) (h : Header) (read : Result Error (List ℕ × List ℕ)) (x : Message × List ℕ)
    → InRange h
    → max_payload_size < h.length
    → (read >>= λ r. finish_read (decode_frame b (encode h ++ r.0)) r.1) ≢ ok x
finish_read-capped b h (err e) x fits big eq = cc
finish_read-capped b h (ok (payload, rest)) x fits big eq =
    let (m, n, decoded) = finish_read-ok (decode_frame b (encode h ++ payload)) rest x eq in
    let frame = decode_frame-IsFrame b (encode h ++ payload) m n decoded in
    let head : decode (take 12 (encode h ++ payload)) ≡ h =
      ap decode (take-append_length (encode h) payload 12 (length-encode h))
      ∙ decode-encode h fits in
    let len : (decode (take 12 (encode h ++ payload))).length ≡ h.length =
      ap (λ (y : Header). y.length) head in
    omega (arith, len, frame.capped)

-- A frame whose header announces more than the cap is refused, but only after a buffer of the
-- announced length has been allocated.
pub read_message_allocates :
    (b : Bincode) (h : Header) (stream : List ℕ)
    → InRange h
    → max_payload_size < h.length
    → ((read_message b (encode h ++ stream)).allocated ≡ h.length)
      × ((x : Message × List ℕ) → (read_message b (encode h ++ stream)).outcome ≢ ok x)
unfolding read_body
read_message_allocates b h stream fits big = rw (read_message-header b h stream) (
  ap (λ (x : Header). x.length) (decode-encode h fits),
  λ x. finish_read-capped b h (read_payload (decode (encode h)).length stream) x fits big,
)
