-- ===== src/Clipboard/Manager.antt =====
-- crates/daemon/src/clipboard_mgr.rs: a tick of the poll loop and the handling of an inbound
-- message. The backend and blake3 are parameters; sends whose failure is ignored are the attempts.
pub mod Echo
pub mod Runs
use my_deskflow.Prelude.{
  ℕ, Bool, false, Option, none, some, List, [], ◌∷◌, ◌++◌, map, ◌==◌, if◌then◌else◌,
}
use my_deskflow.Core.Screen.{PeerId}
use my_deskflow.Core.Error.{Error, Result, ok, err}
use my_deskflow.Protocol.Message.{
  Digest, ClipboardFormat, plain_text, png, ClipboardPayload, Message, clipboard_formats,
  clipboard_request, clipboard_data,
}
use my_deskflow.Routing.Session.{PeerHandle}
use my_deskflow.Clipboard.Backend.{
  ClipboardBackend, OriginatorRegistry, record_originator, originator_of,
}

-- A message to a peer.
abbrev pub Sent : Type 0
Sent = PeerHandle × Message

-- `Ok(b) if !b.is_empty()`.
abbrev pub nonempty : Result Error (List ℕ) → Option (List ℕ)
nonempty (ok []) = none
nonempty (ok (b ∷ bs)) = some (b ∷ bs)
nonempty (err e) = none

abbrev pub is_digest : Option Digest → Digest → Bool
is_digest none h = false
is_digest (some g) h = g == h

module _ (be : ClipboardBackend) (hash_content : List ℕ → Digest) where
  -- `ClipboardManager`, with what is on the board.
  pub record ClipboardManager : Type 0 where
    pub originators : OriginatorRegistry
    pub last_hash : Option Digest
    pub local_peer_id : PeerId
    pub board : be.Board

  -- Text if there is any, then an image.
  unfoldable pub detect : be.Board → Option (ClipboardFormat × List ℕ)
  detect board = elim (nonempty (be.read plain_text board)) [
    | some b ↦ some (plain_text, b)
    | none ↦ elim (nonempty (be.read png board)) [ some b ↦ some (png, b) | none ↦ none ]
  ]

  broadcast :
      ClipboardManager → ClipboardFormat → Digest → List PeerHandle → ClipboardManager × List Sent
  broadcast s f h peers = (
    record s {
      last_hash = some h;
      originators = record_originator s.originators h s.local_peer_id;
    },
    map (λ p. (p, clipboard_formats (f ∷ []) h)) peers,
  )

  announce :
      ClipboardManager → ClipboardFormat → Digest → List PeerHandle → ClipboardManager × List Sent
  unfolding broadcast
  announce s f h peers =
      if is_digest s.last_hash h then (s, []) else elim (originator_of s.originators h) [
        | some o ↦ if o == s.local_peer_id then (s, []) else (record s { last_hash = some h }, [])
        | none ↦ broadcast s f h peers
      ]

  -- One turn of the loop of `spawn_poll_loop`.
  unfoldable pub poll : ClipboardManager → List PeerHandle → ClipboardManager × List Sent
  unfolding announce
  poll s peers = elim (detect s.board) [
    | none ↦ (s, [])
    | some (f, bytes) ↦ announce s f (hash_content bytes) peers
  ]

  pull :
      ClipboardManager → PeerHandle → List ClipboardFormat → Digest → ClipboardManager × List Sent
  pull s peer [] h = (s, [])
  pull s peer (f ∷ fs) h =
      let rest =
        pull (record s { originators = record_originator s.originators h peer.peer_id }) peer fs
          h in
      (rest.0, (peer, clipboard_request f) ∷ rest.1)

  answer : ClipboardManager → PeerHandle → ClipboardFormat → List Sent
  answer s peer f = elim (be.read f s.board) [
    | err e ↦ []
    | ok bytes ↦
        (
          peer,
          clipboard_data (record {
            format = f;
            bytes = bytes;
            originator = s.local_peer_id;
            hash = hash_content bytes;
          }),
        )
        ∷ []
  ]

  unfoldable pub handle_inbound :
      ClipboardManager → PeerHandle → Message → ClipboardManager × List Sent
  unfolding pull answer
  handle_inbound s peer (clipboard_formats formats h) = pull s peer formats h
  handle_inbound s peer (clipboard_request f) = (s, answer s peer f)
  handle_inbound s peer (clipboard_data p) = (
    record s {
      originators = record_originator s.originators p.hash p.originator;
      last_hash = some p.hash;
      board = be.write p s.board;
    },
    [],
  )
  handle_inbound s peer _ = (s, [])
