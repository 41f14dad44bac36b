-- ===== src/Protocol/Stream/Fuel.antt =====
-- read_loop of crates/network/src/peer_loop.rs ends on every stream, whatever the peer sent.
use my_deskflow.Prelude.{
  ℕ, zero, suc, ◌+◌, ◌≤◌, ◌<◌, ◌≡◌, refl, ap, Option, none, some, List, ◌∷◌, ◌++◌, arith, length,
  drop, length-drop, take, leb, leb→le, Bool-cases, inl, inr,
}
use my_deskflow.Core.Error.{Result, ok, err, Result-cases}
use my_deskflow.Protocol.Header.{decode}
use my_deskflow.Protocol.Message.{Message}
use my_deskflow.Protocol.Codec.{Bincode, FrameError, decode_frame}
use my_deskflow.Protocol.Stream.{
  read_exact, finish_read, read_payload, read_body, read_after, read_message, read_loop,
}

finish_read-rest :
    (r : Result FrameError (Option (Message × ℕ))) (rest : List ℕ) (m : Message) (left : List ℕ)
    → finish_read r rest ≡ ok (m, left)
    → left ≡ rest
unfolding finish_read
finish_read-rest (err e) rest m left h = cc
finish_read-rest (ok none) rest m left h = cc
finish_read-rest (ok (some (n, k))) rest m left h = ground arith

read_payload-le :
    (len : ℕ) (stream payload rest : List ℕ)
    → read_payload len stream ≡ ok (payload, rest)
    → length rest ≤ length stream
unfolding read_payload read_exact
read_payload-le len stream payload rest h = ground (arith, length-drop len stream)

-- A message takes the twelve bytes of its header at least.
body_le :
    (b : Bincode) (head stream : List ℕ) (m : Message) (rest : List ℕ)
    → (read_body b head stream).outcome ≡ ok (m, rest)
    → length rest ≤ length stream
unfolding read_body
body_le b head stream m rest h = elim (Result-cases (read_payload (decode head).length stream)) [
  | inl ((payload, left), e) ↦
      let read = rw e at h in
      let same = finish_read-rest (decode_frame b (head ++ payload)) left m rest read in
      let less = read_payload-le (decode head).length stream payload left e in rw same less
  | inr (x, e) ↦ absurd (let bad = rw e at h in ground arith)
]

pub read_message_consumes :
    (b : Bincode) (stream : List ℕ) (m : Message) (rest : List ℕ)
    → (read_message b stream).outcome ≡ ok (m, rest)
    → length rest + 12 ≤ length stream
unfolding read_message read_exact read_after
read_message_consumes b stream m rest h = elim (Bool-cases (leb 12 (length stream))) [
  | inl long ↦
      let less = body_le b (take 12 stream) (drop 12 stream) m rest (rw long at h) in
      omega (arith, less, length-drop 12 stream, leb→le 12 (length stream) long)
  | inr short ↦ absurd (let bad = rw short at h in ground arith)
]

-- The reader of any stream ends: two fuels above the length of the stream read the same messages.
pub read_loop-fuel :
    (b : Bincode) (f g : ℕ) (stream : List ℕ)
    → length stream < f
    → length stream < g
    → read_loop b f stream ≡ read_loop b g stream
unfolding read_loop
read_loop-fuel b zero g stream h k = absurd (omega arith)
read_loop-fuel b (suc f) zero stream h k = absurd (omega arith)
read_loop-fuel b (suc f) (suc g) stream h k =
    let ih = read_loop-fuel b f g in
    elim (Result-cases (read_message b stream).outcome) [
      | inl ((m, rest), e) ↦
          let less = read_message_consumes b stream m rest e in
          rw (e, read_loop) (ap (λ l. m ∷ l) (ih rest (omega arith) (omega arith)))
      | inr (x, e) ↦ rw (e, read_loop) refl
    ]
