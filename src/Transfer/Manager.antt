-- ===== src/Transfer/Manager.antt =====
-- crates/daemon/src/filetransfer_mgr.rs, `FileTransferManager`, with `build_entry` and
-- `build_manifest` of crates/filetransfer/src/lib.rs: a set of files from the paths that the user
-- names to the receiver's disk. What `Path::join`, the opening of a file and the peer's connection
-- give are parameters; reads that fail are not modelled.
pub mod Offers
pub mod Absolute
use my_deskflow.Prelude.{
  ℕ, ◌+◌, ◌%◌, ◌^◌, String, Bool, true, false, Option, none, some, List, [], ◌∷◌, ◌++◌,
  if◌then◌else◌,
}
use my_deskflow.Core.Error.{Error, Result, ok, err, ◌>>=◌, map_err, io}
use my_deskflow.Protocol.Message.{FileManifest, FileEntry, FileChunk, FileOffer}
use my_deskflow.Transfer.Paths.{is_absolute}
use my_deskflow.Transfer.Receiver.{FileSystem, Blake3, Done, Receiver, Failure, begin, write_chunk}
use my_deskflow.Transfer.Sender.{build_entry, send_file, default_chunk_size}

-- The sender's disk: what the reads of a file return, with the buffer of 64 KiB.
pub record Source : Type 0 where
  pub join : List ℕ → List ℕ → List ℕ
  pub open_file : List ℕ → Result String (List (List ℕ))

-- `PeerHandle::send`, `PeerHandle::open_bi` and the writes to the stream.
pub record Link : Type 0 where
  pub send : FileOffer → Result Error Done
  pub open_bi : Result Error Done
  pub write_message : FileChunk → Result Error Done

-- What a call of `send_files` did: the next id, what was written, and the result.
pub record Sending : Type 0 where
  pub next_id : ℕ
  pub offers : List FileOffer
  pub chunks : List FileChunk
  pub result : Result Error ℕ

module _ (src : Source) where
  unfoldable pub abs_path : List ℕ → List ℕ → List ℕ
  abs_path root f = if is_absolute f then f else src.join root f

  module _ (b : Blake3) where
    build_entries : List ℕ → List (List ℕ) → Result Error (List FileEntry)
    build_entries root [] = ok []
    build_entries root (f ∷ fs) = map_err io (src.open_file (abs_path root f)) >>= λ reads.
        build_entries root fs >>= λ es. ok (build_entry b f reads ∷ es)

  total_from : ℕ → List FileEntry → ℕ
  total_from total [] = total
  total_from total (e ∷ es) = total_from ((total + e.size) % 2 ^ 64) es

  unfoldable pub build_manifest : Blake3 → List ℕ → List (List ℕ) → Result Error FileManifest
  unfolding build_entries total_from
  build_manifest b root files =
      build_entries b root files >>= λ es. ok (record { files = es; total_bytes = total_from 0 es })

-- The chunks that are written before one fails, with the error.
write_all : Link → List FileChunk → List FileChunk × Result Error Done
write_all link [] = ([], ok tt)
write_all link (c ∷ cs) =
    let rest = write_all link cs in
    elim (link.write_message c) [ err e ↦ ([], err e) | ok _ ↦ (c ∷ rest.0, rest.1) ]

module _ (src : Source) (link : Link) (root : List ℕ) (id : ℕ) where
  send_entry : ℕ → FileEntry → List FileChunk × Result Error Done
  unfolding write_all
  send_entry i e = elim (src.open_file (abs_path src root e.relative_path)) [
    | err x ↦ ([], err (io x))
    | ok reads ↦ write_all link (send_file default_chunk_size id (i % 2 ^ 32) 0 reads)
  ]

  -- The loop over the manifest; `file_index` is an `u32`.
  send_entries : ℕ → List FileEntry → List FileChunk × Result Error Done
  unfolding send_entry
  send_entries i [] = ([], ok tt)
  send_entries i (e ∷ es) =
      let rest = send_entries (i + 1) es in
      let (chunks, sent) = send_entry i e in
      elim sent [ err x ↦ (chunks, err x) | ok _ ↦ (chunks ++ rest.0, rest.1) ]

-- `send_files` behind the manifest: the id is taken before the offer is sent.
module _ (src : Source) (link : Link) (root : List ℕ) (id : ℕ) (offer : FileOffer) where
  send_offered : Result Error Done → Result Error Done → Sending
  unfolding send_entries
  send_offered (err e) opened = record {
    next_id = (id + 1) % 2 ^ 64;
    offers = [];
    chunks = [];
    result = err e;
  }
  send_offered (ok _) (err e) = record {
    next_id = (id + 1) % 2 ^ 64;
    offers = offer ∷ [];
    chunks = [];
    result = err e;
  }
  send_offered (ok _) (ok _) =
      let (chunks, sent) = send_entries src link root id 0 offer.manifest.files in
      record {
        next_id = (id + 1) % 2 ^ 64;
        offers = offer ∷ [];
        chunks = chunks;
        result = sent >>= λ _. ok id;
      }

send_manifest : Source → Link → List ℕ → Bool → ℕ → Result Error FileManifest → Sending
unfolding send_offered
send_manifest src link root compress id (err e) = record {
  next_id = id;
  offers = [];
  chunks = [];
  result = err e;
}
send_manifest src link root compress id (ok manifest) =
    let offer : FileOffer = record {
      transfer_id = id;
      manifest = manifest;
      compressed = compress;
    } in
    send_offered src link root id offer (link.send offer) link.open_bi

-- `id` is the value of `TRANSFER_ID_SEQ`.
unfoldable pub send_files : Source → Link → Blake3 → ℕ → List ℕ → List (List ℕ) → Bool → Sending
unfolding send_manifest
send_files src link b id root files compress =
    send_manifest src link root compress id (build_manifest src b root files)

module _ (fs : FileSystem) (b : Blake3) where
  unfoldable pub handle_offer : Receiver fs b → FileOffer → Receiver fs b × Result Error Done
  handle_offer s offer = begin fs b s offer.transfer_id offer.manifest

  unfoldable pub handle_chunk : Receiver fs b → FileChunk → Receiver fs b × Result Failure ℕ
  handle_chunk s c = write_chunk fs b s c
