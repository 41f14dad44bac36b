-- ===== src/Transfer/Manager/Offers.antt =====
-- What `send_files` of crates/daemon/src/filetransfer_mgr.rs writes, whatever fails.
use my_deskflow.Prelude.{
  ℕ, ◌+◌, ◌%◌, ◌^◌, ◌<◌, ◌≤◌, ◌≡◌, refl, Bool, ◌||◌, inl, inr, List, [], ◌∷◌, ◌==◌, length, ltb,
  arith, All, All-append, if_ind,
}
use my_deskflow.Core.Error.{Error, Result, ok, err, Result-cases}
use my_deskflow.Protocol.Message.{FileEntry, FileChunk, FileOffer}
use my_deskflow.Transfer.Receiver.{Blake3, Done}
use my_deskflow.Transfer.Sender.{send_file, default_chunk_size}
use my_deskflow.Transfer.Manager.{
  Source, Link, Sending, abs_path, build_manifest, write_all, send_entry, send_entries,
  send_offered, send_manifest, send_files,
}

-- The chunk belongs to a file of a transfer of `n` files.
abbrev pub BelongsTo : ℕ → ℕ → FileChunk → Type 0
BelongsTo id n c = (c.transfer_id ≡ id) × (c.file_index < n)

send_file-BelongsTo :
    (size id i n offset : ℕ) (reads : List (List ℕ))
    → i < n
    → All (BelongsTo id n) (send_file size id i offset reads)
unfolding send_file
send_file-BelongsTo size id i n offset [] lt = tt
send_file-BelongsTo size id i n offset (r ∷ rs) lt =
    All-append (BelongsTo id n) _ _
      (if_ind (All (BelongsTo id n)) (length r == 0) (λ e. tt) (λ e. ((refl, lt), tt)))
      (if_ind (All (BelongsTo id n)) (ltb (length r) size || length r == 0) (λ e. tt)
        (λ e. send_file-BelongsTo size id i n ((offset + length r) % 2 ^ 64) rs lt))

write_all-All :
    (P : FileChunk → Type 0) (link : Link) (cs : List FileChunk)
    → All P cs
    → All P (write_all link cs).0
unfolding write_all
write_all-All P link [] all = tt
write_all-All P link (c ∷ cs) all = elim (Result-cases (link.write_message c)) [
  | inl (t, e) ↦ rw (e, write_all) (all.0, write_all-All P link cs all.1)
  | inr (x, e) ↦ rw (e, write_all) tt
]

module _ (src : Source) (link : Link) (root : List ℕ) (id : ℕ) where
  send_entry-BelongsTo :
      (i n : ℕ) (e : FileEntry) → i < n → All (BelongsTo id n) (send_entry src link root id i e).0
  unfolding send_entry
  send_entry-BelongsTo i n e lt =
      elim (Result-cases (src.open_file (abs_path src root e.relative_path))) [
        | inl (reads, opened) ↦
            rw (opened, send_entry)
              (write_all-All (BelongsTo id n) link _
                (send_file-BelongsTo default_chunk_size id (i % 2 ^ 32) n 0 reads (omega arith)))
        | inr (x, failed) ↦ rw (failed, send_entry) tt
      ]

  send_entries-BelongsTo :
      (i n : ℕ) (es : List FileEntry)
      → i + length es ≤ n
      → All (BelongsTo id n) (send_entries src link root id i es).0
  unfolding send_entries
  send_entries-BelongsTo i n [] le = tt
  send_entries-BelongsTo i n (e ∷ es) le =
      let first = send_entry-BelongsTo i n e (omega arith) in
      let later = send_entries-BelongsTo (i + 1) n es (omega arith) in
      elim (Result-cases (send_entry src link root id i e).1) [
        | inl (t, sent) ↦ rw (sent, send_entries) (All-append (BelongsTo id n) _ _ first later)
        | inr (x, failed) ↦ rw (failed, send_entries) first
      ]

-- What a call of `send_files` can have written.
pub data Wrote (id : ℕ) (s : Sending) : Type 0 where
  nothing : s.offers ≡ [] → s.chunks ≡ [] → Wrote id s
  offered :
      (o : FileOffer)
      → s.offers ≡ o ∷ []
      → o.transfer_id ≡ id
      → s.next_id ≡ (id + 1) % 2 ^ 64
      → All (BelongsTo id (length o.manifest.files)) s.chunks
      → Wrote id s

send_offered-Wrote :
    (src : Source) (link : Link) (root : List ℕ) (id : ℕ) (o : FileOffer)
    (sent opened : Result Error Done)
    → o.transfer_id ≡ id
    → Wrote id (send_offered src link root id o sent opened)
unfolding send_offered
send_offered-Wrote src link root id o (err e) opened h = nothing refl refl
send_offered-Wrote src link root id o (ok t) (err e) h = offered o refl h refl tt
send_offered-Wrote src link root id o (ok t) (ok t') h = offered o refl h refl (
    send_entries-BelongsTo src link root id 0 (length o.manifest.files) o.manifest.files
      (omega arith))

-- Whatever fails, a call of `send_files` writes nothing at all, or one offer under its own id, which
-- the next call does not get, and only chunks of that transfer and of files of the offer's manifest.
pub send_files-Wrote :
    (src : Source) (link : Link) (b : Blake3) (id : ℕ) (root : List ℕ) (files : List (List ℕ))
    (compress : Bool)
    → Wrote id (send_files src link b id root files compress)
unfolding send_files send_manifest
send_files-Wrote src link b id root files compress =
    elim (Result-cases (build_manifest src b root files)) [
      | inr (e, failed) ↦ rw (failed, send_manifest) (nothing refl refl)
      | inl (m, built) ↦ rw (built, send_manifest) (send_offered-Wrote src link root id _ _ _ refl)
    ]
