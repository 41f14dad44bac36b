-- ===== src/Clipboard/Manager/Echo.antt =====
-- Polls of crates/daemon/src/clipboard_mgr.rs that are silent.
use my_deskflow.Prelude.{ℕ, ◌≡◌, arith, some, List, [], Option-cases, inl, inr}
use my_deskflow.Protocol.Message.{Digest, ClipboardPayload, clipboard_data}
use my_deskflow.Routing.Session.{PeerHandle}
use my_deskflow.Clipboard.Backend.{ClipboardBackend, originator_of, record_originator}
use my_deskflow.Clipboard.Manager.{ClipboardManager, detect, poll, handle_inbound}

module _ (be : ClipboardBackend) (hash_content : List ℕ → Digest) where
  -- A second poll of the same board is silent and changes nothing, whatever the first did.
  pub poll-poll :
      (s : ClipboardManager be hash_content) (peers peers' : List PeerHandle)
      → let s' = (poll be hash_content s peers).0 in poll be hash_content s' peers' ≡ (s', [])
  unfolding poll originator_of record_originator
  poll-poll s peers peers' = elim (Option-cases (detect be hash_content s.board)) [
    | inl d ↦ ground arith
    | inr (c, d) ↦ ground arith
  ]

  -- Content that a peer sent is not announced back: the poll behind it is silent and changes
  -- nothing, if the payload carries the digest of its bytes and the board then reads back as them.
  pub poll-handle_inbound :
      (s : ClipboardManager be hash_content) (peer : PeerHandle) (p : ClipboardPayload)
      (peers : List PeerHandle)
      → p.hash ≡ hash_content p.bytes
      → detect be hash_content (be.write p s.board) ≡ some (p.format, p.bytes)
      → let s' = (handle_inbound be hash_content s peer (clipboard_data p)).0 in
        poll be hash_content s' peers ≡ (s', [])
  unfolding poll handle_inbound
  poll-handle_inbound s peer p peers h d = ground arith
