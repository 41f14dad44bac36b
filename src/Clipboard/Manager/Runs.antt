-- ===== src/Clipboard/Manager/Runs.antt =====
-- Runs of the clipboard manager of crates/daemon/src/clipboard_mgr.rs: ticks of the poll loop, each
-- with the board as it is then, and inbound messages.
use my_deskflow.Prelude.{
  ℕ, ◌≡◌, ◌≢◌, ◌==◌, sym, arith, Option, none, some, List, [], ◌∷◌, ◌++◌, map, Option-cases,
  Bool-cases, inl, inr, All, All-append, subst, ◌∙◌, lookup, insert, lookup-insert,
  lookup-insert_other,
}
use my_deskflow.Core.Error.{Error, Result, ok, err}
use my_deskflow.Core.Screen.{PeerId}
use my_deskflow.Protocol.Message.{
  Digest, ClipboardFormat, clipboard_data, clipboard_request, clipboard_formats, Message,
}
use my_deskflow.Routing.Session.{PeerHandle}
use my_deskflow.Clipboard.Backend.{
  ClipboardBackend, OriginatorRegistry, originator_of, record_originator,
}
use my_deskflow.Clipboard.Manager.{
  ClipboardManager, Sent, is_digest, detect, poll, handle_inbound, pull, answer, announce,
  broadcast,
}

-- The digest that a message announces.
abbrev pub announces : Message → Option Digest
announces (clipboard_formats formats h) = some h
announces _ = none

-- Some peer is known to have had the content.
abbrev pub IsKnown : OriginatorRegistry → Digest → Type 0
IsKnown seen h = (o : PeerId) × (originator_of seen h ≡ some o)

IsKnown-record_originator :
    (seen : OriginatorRegistry) (h k : Digest) (o : PeerId)
    → IsKnown seen h
    → IsKnown (record_originator seen k o) h
unfolding originator_of record_originator
IsKnown-record_originator seen h k o (q, known) = elim (Bool-cases (h == k)) [
  | inl e ↦
      (o, subst (λ j. lookup j (insert k o seen) ≡ some o) (ground arith) (lookup-insert k o seen))
  | inr e ↦ (q, lookup-insert_other h k o seen (λ same. ground arith) ∙ known)
]

module _ (be : ClipboardBackend) (hash_content : List ℕ → Digest) where
  pub data Event : Type 0 where
    tick : be.Board → List PeerHandle → Event
    inbound : PeerHandle → Message → Event

  abbrev step :
      ClipboardManager be hash_content → Event → ClipboardManager be hash_content × List Sent
  step s (tick board peers) = poll be hash_content (record s { board = board }) peers
  step s (inbound peer msg) = handle_inbound be hash_content s peer msg

  -- Everything that is sent.
  unfoldable pub run : ClipboardManager be hash_content → List Event → List Sent
  run s [] = []
  run s (e ∷ es) = let (s', sent) = step s e in sent ++ run s' es

  -- No message announces the digest.
  abbrev pub IsSilentOn : Digest → List Sent → Type 0
  IsSilentOn h sent = All (λ m. announces m.1 ≢ some h) sent

  abbrev Keeps : Digest → ClipboardManager be hash_content × List Sent → Type 0
  Keeps h (s, sent) = IsKnown s.originators h × IsSilentOn h sent

  silent-requests :
      (s : ClipboardManager be hash_content) (peer : PeerHandle) (fs : List ClipboardFormat)
      (k h : Digest)
      → IsKnown s.originators h
      → Keeps h (pull be hash_content s peer fs k)
  unfolding pull
  silent-requests s peer [] k h known = (known, tt)
  silent-requests s peer (f ∷ fs) k h known =
      let rest =
        silent-requests (record s { originators = record_originator s.originators k peer.peer_id })
          peer fs k h (IsKnown-record_originator s.originators h k peer.peer_id known) in
      (rest.0, (λ e. cc, rest.1))

  silent-broadcast :
      (f : ClipboardFormat) (k h : Digest) (peers : List PeerHandle)
      → k ≢ h
      → IsSilentOn h (map (λ p. (p, clipboard_formats (f ∷ []) k)) peers)
  silent-broadcast f k h [] ne = tt
  silent-broadcast f k h (p ∷ ps) ne = (λ e. ne (ground arith), silent-broadcast f k h ps ne)

  announce-Keeps :
      (s : ClipboardManager be hash_content) (f : ClipboardFormat) (k h : Digest)
      (peers : List PeerHandle)
      → IsKnown s.originators h
      → Keeps h (announce be hash_content s f k peers)
  unfolding announce broadcast
  announce-Keeps s f k h peers (q, known) = elim (Option-cases (originator_of s.originators k)) [
    | inl new ↦
        let kept = IsKnown-record_originator s.originators h k s.local_peer_id (q, known) in
        let silent = silent-broadcast f k h peers (λ e. ground arith) in
        elim (Bool-cases (is_digest s.last_hash k)) [
          | inl same ↦ rw same ((q, known), tt)
          | inr other ↦ rw other (rw new (kept, silent))
        ]
    | inr (o, old) ↦ elim (Bool-cases (is_digest s.last_hash k)) [
      | inl same ↦ rw same ((q, known), tt)
      | inr other ↦ rw other (
          rw old (elim (Bool-cases (o == s.local_peer_id)) [
            | inl mine ↦ rw mine ((q, known), tt)
            | inr theirs ↦ rw theirs ((q, known), tt)
          ]))
    ]
  ]

  poll-quiet :
      (s : ClipboardManager be hash_content) (peers : List PeerHandle)
      → detect be hash_content s.board ≡ none
      → poll be hash_content s peers ≡ (s, [])
  unfolding poll
  poll-quiet s peers d = ground arith

  poll-announce :
      (s : ClipboardManager be hash_content) (peers : List PeerHandle) (f : ClipboardFormat)
      (bytes : List ℕ)
      → detect be hash_content s.board ≡ some (f, bytes)
      → poll be hash_content s peers ≡ announce be hash_content s f (hash_content bytes) peers
  unfolding poll
  poll-announce s peers f bytes d = ground arith

  poll-Keeps :
      (s : ClipboardManager be hash_content) (peers : List PeerHandle) (h : Digest)
      → IsKnown s.originators h
      → Keeps h (poll be hash_content s peers)
  poll-Keeps s peers h known = elim (Option-cases (detect be hash_content s.board)) [
    | inl d ↦ subst (Keeps h) (sym (poll-quiet s peers d)) (known, tt)
    | inr ((f, bytes), d) ↦
        subst (Keeps h) (sym (poll-announce s peers f bytes d))
          (announce-Keeps s f (hash_content bytes) h peers known)
  ]

  silent-answer :
      (s : ClipboardManager be hash_content) (peer : PeerHandle) (f : ClipboardFormat) (h : Digest)
      → IsSilentOn h (answer be hash_content s peer f)
  unfolding answer
  silent-answer s peer f h = silent-reply (be.read f s.board)
    where
      silent-reply :
          (r : Result Error (List ℕ))
          → IsSilentOn h (elim r [
            | err e ↦ []
            | ok bytes ↦
                (
                  peer,
                  clipboard_data (record {
                    format = f;
                    bytes = bytes;
                    originator = s.local_peer_id;
                    hash = hash_content bytes;
                  }),
                )
                ∷ []
          ])
      silent-reply (ok bytes) = (λ e. cc, tt)
      silent-reply (err e) = tt

  handle_inbound-Keeps :
      (s : ClipboardManager be hash_content) (peer : PeerHandle) (msg : Message) (h : Digest)
      → IsKnown s.originators h
      → Keeps h (handle_inbound be hash_content s peer msg)
  unfolding handle_inbound
  handle_inbound-Keeps s peer (clipboard_formats formats k) h known =
      silent-requests s peer formats k h known
  handle_inbound-Keeps s peer (clipboard_request f) h known = (known, silent-answer s peer f h)
  handle_inbound-Keeps s peer (clipboard_data p) h known =
      (IsKnown-record_originator s.originators h p.hash p.originator known, tt)
  handle_inbound-Keeps s peer _ h known = (known, tt)

  -- Content that is known, because this machine or a peer once had it, is never announced: not in
  -- any run of polls, whatever the board holds then, and inbound messages.
  pub run-IsSilentOn :
      (s : ClipboardManager be hash_content) (es : List Event) (h : Digest)
      → IsKnown s.originators h
      → IsSilentOn h (run s es)
  unfolding run
  run-IsSilentOn s [] h known = tt
  run-IsSilentOn s (tick board peers ∷ es) h known =
      let kept = poll-Keeps (record s { board = board }) peers h known in
      All-append _ _ _ kept.1
        (run-IsSilentOn (poll be hash_content (record s { board = board }) peers).0 es h kept.0)
  run-IsSilentOn s (inbound peer msg ∷ es) h known =
      let kept = handle_inbound-Keeps s peer msg h known in
      All-append _ _ _ kept.1
        (run-IsSilentOn (handle_inbound be hash_content s peer msg).0 es h kept.0)
