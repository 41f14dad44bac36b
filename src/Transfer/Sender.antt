-- ===== src/Transfer/Sender.antt =====
-- crates/filetransfer/src/lib.rs, the sending side, and `send_files` of
-- crates/daemon/src/filetransfer_mgr.rs. What the reads of an opened file return is a list of byte
-- strings; behind its end a read returns nothing. Reads that fail are not modelled.
pub mod Delivery
use my_deskflow.Prelude.{
  ℕ, ◌+◌, ◌%◌, ◌^◌, ◌*◌, Bool, ◌||◌, Option, none, some, List, [], ◌∷◌, ◌++◌, ltb, ◌==◌, length,
  lookup, insert, if◌then◌else◌,
}
use my_deskflow.Protocol.Message.{FileManifest, FileEntry, FileChunk}
use my_deskflow.Transfer.Receiver.{Blake3}

pub record SendProgress : Type 0 where
  pub manifest : FileManifest
  pub bytes_sent : ℕ
  pub bytes_acked : ℕ

-- `SenderState`.
abbrev pub SenderState : Type 0
SenderState = List (ℕ × SendProgress)

unfoldable pub start : SenderState → ℕ → FileManifest → SenderState
start s id manifest = insert id (record { manifest = manifest; bytes_sent = 0; bytes_acked = 0 }) s

unfoldable pub record_sent : SenderState → ℕ → ℕ → SenderState
record_sent s id bytes = elim (lookup id s) [
  | none ↦ s
  | some p ↦ insert id (record p { bytes_sent = (p.bytes_sent + bytes) % 2 ^ 64 }) s
]

unfoldable pub record_ack : SenderState → ℕ → ℕ → SenderState
record_ack s id through = elim (lookup id s) [
  | none ↦ s
  | some p ↦ insert id (record p { bytes_acked = through }) s
]

abbrev pub default_chunk_size : ℕ
default_chunk_size = 64 * 1024

module _ (b : Blake3) where
  -- The loop of `build_entry`: it ends with the first read that returns nothing.
  unfoldable pub hash_reads : b.Hasher → ℕ → List (List ℕ) → b.Hasher × ℕ
  hash_reads hasher total [] = (hasher, total)
  hash_reads hasher total (r ∷ rs) =
      let rest = hash_reads (b.update hasher r) ((total + length r) % 2 ^ 64) rs in
      if length r == 0 then (hasher, total) else rest

  -- The path is UTF-8, so that `to_string_lossy` keeps it.
  unfoldable pub build_entry : List ℕ → List (List ℕ) → FileEntry
  unfolding hash_reads
  build_entry file reads =
      let (hasher, total) = hash_reads b.new 0 reads in
      record { relative_path = file; size = total; blake3 = b.finalize hasher }

-- The loop of `send_files` over one file, with a buffer of `size` bytes.
unfoldable pub send_file : ℕ → ℕ → ℕ → ℕ → List (List ℕ) → List FileChunk
send_file size id i offset [] = []
send_file size id i offset (r ∷ rs) =
    let rest = send_file size id i ((offset + length r) % 2 ^ 64) rs in
    let is_last = ltb (length r) size in
    (if length r == 0
      then []
      else record {
        transfer_id = id;
        file_index = i;
        offset = offset;
        bytes = r;
        is_last = is_last;
      }
        ∷ [])
    ++ (if is_last || length r == 0 then [] else rest)
