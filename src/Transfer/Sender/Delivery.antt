-- ===== src/Transfer/Sender/Delivery.antt =====
-- The chunks that crates/daemon/src/filetransfer_mgr.rs sends meet the receiver of
-- crates/filetransfer/src/lib.rs.
use my_deskflow.Prelude.{
  ℕ, ◌+◌, ◌%◌, ◌^◌, ◌≤◌, ◌<◌, ◌≡◌, refl, ap, sym, ◌∙◌, subst, Bool, false, List, [], ◌∷◌, ◌++◌, ltb,
  length, length-append, arith, All,
}
use mathlib.Core.List.{append_assoc, append-nil}
use my_deskflow.Core.Error.{ok}
use my_deskflow.Protocol.Message.{FileEntry, FileChunk}
use my_deskflow.Transfer.Receiver.{FileSystem, Blake3, Receiver, write_chunk, write_chunks}
use my_deskflow.Transfer.Receiver.Delivery.{
  Incremental, Appends, IsReceived, Matches, write_chunk-IsReceived,
}
use my_deskflow.Transfer.Sender.{hash_reads, build_entry, send_file}

-- The bytes that the reads return together.
abbrev pub contents : List (List ℕ) → List ℕ
contents [] = []
contents (r ∷ rs) = r ++ contents rs

-- Every read but the last fills the buffer.
abbrev pub Full : ℕ → List (List ℕ) → Type 0
Full size [] = Unit
Full size (r ∷ []) = length r ≤ size
Full size (r ∷ r' ∷ rs) = (length r ≡ size) × Full size (r' ∷ rs)

abbrev chunk : ℕ → ℕ → ℕ → List ℕ → Bool → FileChunk
chunk id i offset bytes is_last = record {
  transfer_id = id;
  file_index = i;
  offset = offset;
  bytes = bytes;
  is_last = is_last;
}

send_file-empty : (size id i offset : ℕ) → 0 < size → send_file size id i offset ([] ∷ []) ≡ []
unfolding send_file
send_file-empty size id i offset pos = ground arith

send_file-single :
    (size id i offset : ℕ) (r : List ℕ)
    → 0 < length r
    → send_file size id i offset (r ∷ []) ≡ chunk id i offset r (ltb (length r) size) ∷ []
unfolding send_file
send_file-single size id i offset r pos = ground arith

send_file-cons :
    (size id i offset : ℕ) (r : List ℕ) (rs : List (List ℕ))
    → 0 < size
    → length r ≡ size
    → send_file size id i offset (r ∷ rs)
      ≡ chunk id i offset r false ∷ send_file size id i ((offset + length r) % 2 ^ 64) rs
unfolding send_file
send_file-cons size id i offset r rs pos full = ground arith

module _ (fs : FileSystem) (b : Blake3) (room : Appends fs) (inc : Incremental b) where
  -- What is to be shown of a stream of chunks.
  abbrev Delivers : Receiver fs b → ℕ → ℕ → FileEntry → List FileChunk → List ℕ → Type 0
  Delivers s id i e chunks content =
      ((write_chunks fs b s chunks).1 ≡ ok tt)
      × IsReceived fs b (write_chunks fs b s chunks).0 id i e content

  write_chunks-ok :
      (s : Receiver fs b) (c : FileChunk) (cs : List FileChunk) (n : ℕ)
      → (write_chunk fs b s c).1 ≡ ok n
      → write_chunks fs b s (c ∷ cs) ≡ write_chunks fs b (write_chunk fs b s c).0 cs
  unfolding write_chunks
  write_chunks-ok s c cs n h = ground arith

  write_chunks-cons :
      (s : Receiver fs b) (c : FileChunk) (cs : List FileChunk) (e : FileEntry)
      (content all : List ℕ)
      → IsReceived fs b s c.transfer_id c.file_index e content
      → c.offset ≡ length content
      → length (content ++ c.bytes) < 2 ^ 64
      → Matches fs b c e (content ++ c.bytes)
      → ((s' : Receiver fs b)
          → IsReceived fs b s' c.transfer_id c.file_index e (content ++ c.bytes)
          → Delivers s' c.transfer_id c.file_index e cs all)
      → Delivers s c.transfer_id c.file_index e (c ∷ cs) all
  write_chunks-cons s c cs e content all r offset small matches next =
      let ((n, written), r') =
        write_chunk-IsReceived fs b room inc s c e content r offset small matches in
      subst (λ q. (q.1 ≡ ok tt) × IsReceived fs b q.0 c.transfer_id c.file_index e all)
        (sym (write_chunks-ok s c cs n written)) (next (write_chunk fs b s c).0 r')

  hash_reads-cons :
      (h : b.Hasher) (total : ℕ) (r : List ℕ) (rs : List (List ℕ))
      → 0 < length r
      → hash_reads b h total (r ∷ rs) ≡ hash_reads b (b.update h r) ((total + length r) % 2 ^ 64) rs
  unfolding hash_reads
  hash_reads-cons h total r rs pos = ground arith

  hash_reads-Full :
      (size : ℕ) (seen : List ℕ) (total : ℕ) (reads : List (List ℕ))
      → 0 < size
      → Full size reads
      → (hash_reads b (b.update b.new seen) total reads).0 ≡ b.update b.new (seen ++ contents reads)
  unfolding hash_reads
  hash_reads-Full size seen total [] pos full = ap (b.update b.new) (sym (append-nil seen))
  hash_reads-Full size seen total ([] ∷ []) pos full = ap (b.update b.new) (sym (append-nil seen))
  hash_reads-Full size seen total ((x ∷ r) ∷ []) pos full =
      rw (hash_reads-cons (b.update b.new seen) total (x ∷ r) [] (omega arith)) (
        inc.update-update b.new seen (x ∷ r)
        ∙ ap (λ l. b.update b.new (seen ++ l)) (sym (append-nil (x ∷ r))))
  hash_reads-Full size seen total (r ∷ r' ∷ rs) pos full =
      rw (hash_reads-cons (b.update b.new seen) total r (r' ∷ rs) (rw full.0 pos)) (
        rw (inc.update-update b.new seen r) (
          hash_reads-Full size (seen ++ r) ((total + length r) % 2 ^ 64) (r' ∷ rs) pos full.1
          ∙ ap (b.update b.new) (append_assoc seen r (contents (r' ∷ rs)))))

  build_entry-Full :
      (size : ℕ) (file : List ℕ) (reads : List (List ℕ))
      → 0 < size
      → Full size reads
      → (build_entry b file reads).blake3 ≡ b.finalize (b.update b.new (contents reads))
  unfolding build_entry
  build_entry-Full size file reads pos full = ap b.finalize (
      ap (λ h. (hash_reads b h 0 reads).0) (sym (inc.update-nil b.new))
      ∙ hash_reads-Full size [] 0 reads pos full)

  next_offset :
      (seen bytes rest : List ℕ)
      → length ((seen ++ bytes) ++ rest) < 2 ^ 64
      → (length (seen ++ bytes) < 2 ^ 64)
        × ((length seen + length bytes) % 2 ^ 64 ≡ length (seen ++ bytes))
  next_offset seen bytes rest small =
      let all = length-append (seen ++ bytes) rest in
      let some = length-append seen bytes in (omega arith, omega arith)

  -- The digest of what is received so far is looked at in the end at most.
  abbrev Meets : FileEntry → List ℕ → Type 0
  Meets e content = b.finalize (b.update b.new content) ≡ e.blake3

  send_file-Full :
      (size id i : ℕ) (e : FileEntry) (seen : List ℕ) (reads : List (List ℕ)) (s : Receiver fs b)
      → 0 < size
      → Full size reads
      → length (seen ++ contents reads) < 2 ^ 64
      → Meets e (seen ++ contents reads)
      → IsReceived fs b s id i e seen
      → Delivers s id i e (send_file size id i (length seen) reads) (seen ++ contents reads)
  unfolding write_chunks send_file
  send_file-Full size id i e seen [] s pos full small same r = rw (append-nil seen) (refl, r)
  send_file-Full size id i e seen ([] ∷ []) s pos full small same r =
      rw (send_file-empty size id i (length seen) pos) (rw (append-nil seen) (refl, r))
  send_file-Full size id i e seen ((x ∷ bytes) ∷ []) s pos full small same r =
      let flat = ap (λ l. seen ++ l) (append-nil (x ∷ bytes)) in
      let c = chunk id i (length seen) (x ∷ bytes) (ltb (length (x ∷ bytes)) size) in
      rw (send_file-single size id i (length seen) (x ∷ bytes) (omega arith)) (
        subst (Delivers s id i e (c ∷ [])) (sym flat) (
          write_chunks-cons s c [] e seen (seen ++ (x ∷ bytes)) r refl
            (subst (λ l. length l < 2 ^ 64) flat small) (λ _. subst (Meets e) flat same)
            (λ s' r'. (refl, r'))))
  send_file-Full size id i e seen (bytes ∷ bytes' ∷ rs) s pos full small same r =
      let assoc = append_assoc seen bytes (contents (bytes' ∷ rs)) in
      let small' = subst (λ l. length l < 2 ^ 64) (sym assoc) small in
      let next = next_offset seen bytes (contents (bytes' ∷ rs)) small' in
      let c = chunk id i (length seen) bytes false in
      let rest = send_file size id i ((length seen + length bytes) % 2 ^ 64) (bytes' ∷ rs) in
      rw (send_file-cons size id i (length seen) bytes (bytes' ∷ rs) pos full.0) (
        subst (Delivers s id i e (c ∷ rest)) assoc (
          write_chunks-cons s c rest e seen ((seen ++ bytes) ++ contents (bytes' ∷ rs)) r refl
            next.0 (λ no. cc)
            (λ s' r'. rw next.1 (
              send_file-Full size id i e (seen ++ bytes) (bytes' ∷ rs) s' pos full.1 small'
                (subst (Meets e) (sym assoc) same) r'))))

  -- A file whose reads fill the buffer but for the last, sent in chunks to a receiver that has
  -- begun the transfer with the entry that `build_entry` made from the same reads: every chunk is
  -- accepted, and the receiver's file and counter are those of the whole file. The file is shorter
  -- than 2^64 bytes, and the receiver's disk has room.
  pub send_file-delivers :
      (size id i : ℕ) (file : List ℕ) (reads : List (List ℕ)) (s : Receiver fs b)
      → 0 < size
      → Full size reads
      → length (contents reads) < 2 ^ 64
      → IsReceived fs b s id i (build_entry b file reads) []
      → ((write_chunks fs b s (send_file size id i 0 reads)).1 ≡ ok tt)
        × IsReceived fs b
            (write_chunks fs b s (send_file size id i 0 reads)).0
            id
            i
            (build_entry b file reads)
            (contents reads)
  send_file-delivers size id i file reads s pos full small r =
      send_file-Full size id i (build_entry b file reads) [] reads s pos full small
        (sym (build_entry-Full size file reads pos full)) r

-- A file of whole buffers, read in whole buffers, is sent without a chunk that is marked as the
-- last, so that the receiver never looks at its digest.
pub send_file-unmarked :
    (size id i offset : ℕ) (reads : List (List ℕ))
    → 0 < size
    → All (λ r. length r ≡ size) reads
    → All (λ c. c.is_last ≡ false) (send_file size id i offset reads)
unfolding send_file
send_file-unmarked size id i offset [] pos full = tt
send_file-unmarked size id i offset (r ∷ rs) pos full =
    rw (send_file-cons size id i offset r rs pos full.0)
      (refl, send_file-unmarked size id i ((offset + length r) % 2 ^ 64) rs pos full.1)
