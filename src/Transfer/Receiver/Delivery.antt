-- ===== src/Transfer/Receiver/Delivery.antt =====
-- What `Receiver::write_chunk` of crates/filetransfer/src/lib.rs does to a file.
use my_deskflow.Prelude.{
  ℕ, ◌+◌, ◌%◌, ◌<◌, ◌%◌, ◌^◌, ◌≡◌, sym, subst, Bool-cases, inl, inr, length-append, true, false,
  some, List, [], ◌++◌, length, get_elem?, arith, get_elem?-lt, get_elem?-set, lookup, insert,
  lookup-insert,
}
use my_deskflow.Core.Error.{ok, err}
use my_deskflow.Protocol.Message.{FileEntry, FileChunk}
use my_deskflow.Transfer.Receiver.{
  FilePath, FileSystem, Blake3, Failure, RecvProgress, Receiver, locate, commit, write_chunk,
  advance, verify, sum_u64,
}

-- A hasher takes the bytes in pieces.
pub record Incremental (b : Blake3) : Type 0 where
  pub update-nil : (h : b.Hasher) → b.update h [] ≡ h
  pub update-update :
      (h : b.Hasher) (x y : List ℕ) → b.update (b.update h x) y ≡ b.update h (x ++ y)

-- A disk with room: a write at the end of a file succeeds and appends.
pub record Appends (fs : FileSystem) : Type 0 where
  pub write_at-end :
      (p : FilePath) (old new : List ℕ) (d : fs.Disk)
      → fs.read p d ≡ some old
      → (d' : fs.Disk) × (fs.write_at p (length old) new d ≡ (d', ok tt))
        × (fs.read p d' ≡ some (old ++ new))

module _ (fs : FileSystem) (b : Blake3) where
  -- A failed chunk leaves where to resume, unless it was the last of its file.
  pub write_chunk-failed :
      (s : Receiver fs b) (c : FileChunk) (x : Failure)
      → c.is_last ≡ false
      → (write_chunk fs b s c).1 ≡ err x
      → (write_chunk fs b s c).0.transfers ≡ s.transfers
  unfolding write_chunk commit locate
  write_chunk-failed s c x h e = ground arith

  -- What the receiver has of a file.
  pub record IsReceived (s : Receiver fs b) (id : ℕ) (i : ℕ) (entry : FileEntry) (content : List ℕ)
      : Type 0 where
    pub progress : RecvProgress fs b
    pub path : FilePath
    pub found : lookup id s.transfers ≡ some progress
    pub path_at : get_elem? progress.paths i ≡ some path
    pub received_at : get_elem? progress.bytes_received i ≡ some (length content)
    pub hasher_at : get_elem? progress.hashers i ≡ some (b.update b.new content)
    pub entry_at : get_elem? progress.manifest.files i ≡ some entry
    pub read_at : fs.read path s.disk ≡ some content

  locate-IsReceived :
      (s : Receiver fs b) (c : FileChunk) (e : FileEntry) (content : List ℕ)
      (r : IsReceived s c.transfer_id c.file_index e content)
      → locate fs b s c ≡ ok (r.path, (length content, b.update b.new content))
  unfolding locate
  locate-IsReceived s c e content r =
      let lt = get_elem?-lt r.progress.paths c.file_index r.path r.path_at in ground arith

  -- What a transfer is once `bytes` are behind `content`.
  abbrev extended : RecvProgress fs b → ℕ → List ℕ → List ℕ → RecvProgress fs b
  extended p i content bytes =
      advance fs b p i (length content + length bytes) (b.update (b.update b.new content) bytes)

  write_chunk-next :
      (s : Receiver fs b) (c : FileChunk) (e : FileEntry) (content : List ℕ) (d : fs.Disk)
      (r : IsReceived s c.transfer_id c.file_index e content)
      → c.offset ≡ length content
      → fs.write_at r.path c.offset c.bytes s.disk ≡ (d, ok tt)
      → let p =
          advance fs b r.progress c.file_index
            (length content + length c.bytes)
            (b.update (b.update b.new content) c.bytes) in
        write_chunk fs b s c ≡ (
          record s { disk = d; transfers = insert c.transfer_id p s.transfers },
          verify fs b p c (b.update (b.update b.new content) c.bytes),
        )
  unfolding write_chunk commit
  write_chunk-next s c e content d r at w =
      let located = locate-IsReceived s c e content r in ground arith

  -- The entry's digest is that of the content, if the chunk makes the receiver look.
  abbrev pub Matches : FileChunk → FileEntry → List ℕ → Type 0
  Matches c e content = c.is_last ≡ true → b.finalize (b.update b.new content) ≡ e.blake3

  verify-Matches :
      (p : RecvProgress fs b) (c : FileChunk) (e : FileEntry) (content : List ℕ)
      → get_elem? p.manifest.files c.file_index ≡ some e
      → Matches c e content
      → (n : ℕ) × (verify fs b p c (b.update b.new content) ≡ ok n)
  verify-Matches p c e content at matches = (
    sum_u64 p.bytes_received,
    elim (Bool-cases c.is_last) [
      | inl k ↦ let m = matches k in ground arith
      | inr k ↦ ground arith
    ],
  )

  extended-received :
      (p : RecvProgress fs b) (i : ℕ) (content bytes : List ℕ)
      → get_elem? p.bytes_received i ≡ some (length content)
      → length (content ++ bytes) < 2 ^ 64
      → get_elem? (extended p i content bytes).bytes_received i ≡ some (length (content ++ bytes))
  extended-received p i content bytes at small =
      let counted = length-append content bytes in
      let fits : (length content + length bytes) % 2 ^ 64 ≡ length (content ++ bytes) =
        omega arith in
      rw (sym fits) (get_elem?-set p.bytes_received i (length content) _ at)

  module _ (room : Appends fs) (inc : Incremental b) where
    pub write_chunk-IsReceived :
        (s : Receiver fs b) (c : FileChunk) (e : FileEntry) (content : List ℕ)
        → IsReceived s c.transfer_id c.file_index e content
        → c.offset ≡ length content
        → length (content ++ c.bytes) < 2 ^ 64
        → Matches c e (content ++ c.bytes)
        → ((n : ℕ) × ((write_chunk fs b s c).1 ≡ ok n))
          × IsReceived (write_chunk fs b s c).0 c.transfer_id c.file_index e (content ++ c.bytes)
    write_chunk-IsReceived s c e content r at small matches =
        let (d, w, rd) = room.write_at-end r.path content c.bytes s.disk r.read_at in
        let p = extended r.progress c.file_index content c.bytes in
        let hashed = inc.update-update b.new content c.bytes in
        let verified =
          subst (λ h. (n : ℕ) × (verify fs b p c h ≡ ok n)) (sym hashed)
            (verify-Matches p c e (content ++ c.bytes) r.entry_at matches) in
        subst
          (λ q.
            ((n : ℕ) × (q.1 ≡ ok n))
            × IsReceived q.0 c.transfer_id c.file_index e (content ++ c.bytes))
          (sym (write_chunk-next s c e content d r at (rw at w)))
          (
            verified,
            record {
              progress = p;
              path = r.path;
              found = lookup-insert c.transfer_id p s.transfers;
              path_at = r.path_at;
              received_at =
                  extended-received r.progress c.file_index content c.bytes r.received_at small;
              hasher_at =
                  rw (sym hashed) (get_elem?-set r.progress.hashers c.file_index _ _ r.hasher_at);
              entry_at = r.entry_at;
              read_at = rd;
            },
          )
