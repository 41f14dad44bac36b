-- ===== src/Protocol/Header/Laws.antt =====
-- Laws of the header of crates/protocol/src/header.rs: both directions of the byte encoding and of
-- the type ids.
use my_deskflow.Prelude.{ℕ, ◌^◌, ◌<◌, ◌≡◌, refl, some, [], ◌∷◌, arith, All, length}
use my_deskflow.Protocol.Header.{Header, MessageType, type_id, from_u16, encode, decode}

-- The fields of a header lie in their machine types.
pub record InRange (h : Header) : Type 0 where
  pub version_fits : h.version < 2 ^ 16
  pub type_fits : h.message_type < 2 ^ 16
  pub length_fits : h.length < 2 ^ 32

pub length-encode : (h : Header) → length (encode h) ≡ 12
unfolding encode
length-encode h = refl

-- Decoding an encoded header gives it back.
pub decode-encode : (h : Header) → InRange h → decode (encode h) ≡ h
unfolding encode decode
decode-encode h r = ground arith

abbrev IsByte : ℕ → Type 0
IsByte b = b < 256

-- Encoding the header that twelve bytes decode to gives the same bytes.
pub encode-decode :
    (b0 b1 b2 b3 b4 b5 b6 b7 b8 b9 b10 b11 : ℕ)
    → let bytes = b0 ∷ b1 ∷ b2 ∷ b3 ∷ b4 ∷ b5 ∷ b6 ∷ b7 ∷ b8 ∷ b9 ∷ b10 ∷ b11 ∷ [] in
      All IsByte bytes → encode (decode bytes) ≡ bytes
unfolding encode decode
encode-decode b0 b1 b2 b3 b4 b5 b6 b7 b8 b9 b10 b11 h = ground arith

-- Every type id is recognised as its type.
pub from_u16-type_id : (t : MessageType) → from_u16 (type_id t) ≡ some t
unfolding from_u16 type_id
from_u16-type_id MessageType.hello = refl
from_u16-type_id _ = refl

-- A recognised id is the id of the type found.
pub type_id_of_from_u16 : (v : ℕ) (t : MessageType) → from_u16 v ≡ some t → type_id t ≡ v
unfolding from_u16 type_id
type_id_of_from_u16 v t h = ground arith

pub type_id-lt : (t : MessageType) → type_id t < 2 ^ 16
unfolding type_id
type_id-lt MessageType.hello = omega arith
type_id-lt _ = omega arith
