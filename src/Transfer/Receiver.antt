-- ===== src/Transfer/Receiver.antt =====
-- crates/filetransfer/src/lib.rs, the receiving side. The file system and blake3 are parameters.
-- A handler runs to its end before the next one starts.
pub mod Delivery
pub mod Refusal
use my_deskflow.Prelude.{
  ℕ, ◌+◌, ◌%◌, ◌^◌, String, Bool, true, false, Option, none, some, List, [], ◌∷◌, ◌++◌, leb, ◌==◌,
  length, get_elem?, set, replicate, lookup, insert, if◌then◌else◌,
}
use my_deskflow.Core.Error.{Error, Result, ok, err, ◌>>=◌, io, other}
use my_deskflow.Protocol.Message.{Digest, FileManifest, FileEntry, FileChunk}
use my_deskflow.Transfer.Paths.{Name, sanitize}

-- A path by the names on it.
abbrev pub FilePath : Type 0
FilePath = List Name

-- `()`, the value of a call that only can fail.
abbrev pub Done : Type 0
Done = Unit

-- `tokio::fs`, as far as it is used: the disk that a call leaves, with the error of the call.
pub record FileSystem : Type 1 where
  pub Disk : Type 0
  pub create_dir_all : FilePath → Disk → Disk × Result String Done
  -- `File::create`: the file is empty then.
  pub create : FilePath → Disk → Disk × Result String Done
  -- `OpenOptions::open` for writing, `seek`, `write_all` and `flush`.
  pub write_at : FilePath → ℕ → List ℕ → Disk → Disk × Result String Done
  pub read : FilePath → Disk → Option (List ℕ)

pub record Blake3 : Type 1 where
  pub Hasher : Type 0
  pub new : Hasher
  pub update : Hasher → List ℕ → Hasher
  pub finalize : Hasher → Digest

-- An error that is returned, or an index out of range.
pub data Failure : Type 0 where
  failed : Error → Failure
  panicked : Failure

-- `abs.parent()`.
abbrev pub parent : FilePath → Option FilePath
parent [] = none
parent (n ∷ []) = some []
parent (n ∷ m ∷ ns) = elim (parent (m ∷ ns)) [ none ↦ some [] | some p ↦ some (n ∷ p) ]

abbrev pub sum_u64 : List ℕ → ℕ
sum_u64 [] = 0
sum_u64 (n ∷ ns) = (n + sum_u64 ns) % 2 ^ 64

module _ (fs : FileSystem) (b : Blake3) where
  pub record RecvProgress : Type 0 where
    pub manifest : FileManifest
    pub paths : List FilePath
    pub bytes_received : List ℕ
    pub hashers : List b.Hasher

  -- `Receiver` with its `RecvState`, and the disk.
  pub record Receiver : Type 0 where
    pub drop_dir : FilePath
    pub transfers : List (ℕ × RecvProgress)
    pub disk : fs.Disk

  -- The first step fails or the second one runs on its disk.
  abbrev pub and_then {ℓ} :
      {A : Type ℓ}
      → fs.Disk × Result String Done
      → (fs.Disk → fs.Disk × Result Error A)
      → fs.Disk × Result Error A
  and_then (disk, ok _) next = next disk
  and_then (disk, err e) next = (disk, err (io e))

  -- One entry of the loop of `begin`.
  open_at : FilePath → fs.Disk → fs.Disk × Result Error FilePath
  open_at path disk = elim (parent path) [
    | none ↦ and_then (fs.create path disk) (λ d. (d, ok path))
    | some p ↦
        and_then (fs.create_dir_all p disk) (λ d. and_then (fs.create path d) (λ d'. (d', ok path)))
  ]

  open_entry : FilePath → FileEntry → fs.Disk → fs.Disk × Result Error FilePath
  unfolding open_at
  open_entry dir e disk = elim (sanitize e.relative_path) [
    | err x ↦ (disk, err x)
    | ok names ↦ open_at (dir ++ names) disk
  ]

  unfoldable pub open_entries :
      FilePath → List FileEntry → fs.Disk → fs.Disk × Result Error (List FilePath)
  unfolding open_entry
  open_entries dir [] disk = (disk, ok [])
  open_entries dir (e ∷ es) disk =
      let (d, opened) = open_entry dir e disk in
      elim opened [
        | err x ↦ (d, err x)
        | ok path ↦
            let (d', rest) = open_entries dir es d in (d', rest >>= λ paths. ok (path ∷ paths))
      ]

  -- A transfer of which nothing is received.
  abbrev pub fresh : FileManifest → List FilePath → RecvProgress
  fresh manifest paths = record {
    manifest = manifest;
    paths = paths;
    bytes_received = replicate (length manifest.files) 0;
    hashers = replicate (length manifest.files) b.new;
  }

  unfoldable pub begin : Receiver → ℕ → FileManifest → Receiver × Result Error Done
  unfolding open_entries
  begin s id manifest =
      let (d, made) = fs.create_dir_all s.drop_dir s.disk in
      elim made [
        | err x ↦ (record s { disk = d }, err (io x))
        | ok _ ↦
            let (d', opened) = open_entries s.drop_dir manifest.files d in
            elim opened [
              | err x ↦ (record s { disk = d' }, err x)
              | ok paths ↦ (
                record s { disk = d'; transfers = insert id (fresh manifest paths) s.transfers },
                ok tt,
              )
            ]
      ]

  -- What the first lock of `write_chunk` reads: the path, the offset expected and the hasher.
  abbrev pub located :
      Option FilePath → Option ℕ → Option b.Hasher → Result Failure (FilePath × (ℕ × b.Hasher))
  located (some path) (some expected) (some hasher) = ok (path, (expected, hasher))
  located _ _ _ = err panicked

  abbrev pub locate_in : RecvProgress → ℕ → Result Failure (FilePath × (ℕ × b.Hasher))
  locate_in p i =
      if leb (length p.paths) i
      then err (failed (other "file index out of range"))
      else located (get_elem? p.paths i) (get_elem? p.bytes_received i) (get_elem? p.hashers i)

  unfoldable pub locate : Receiver → FileChunk → Result Failure (FilePath × (ℕ × b.Hasher))
  locate s c = elim (lookup c.transfer_id s.transfers) [
    | none ↦ err (failed (other "unknown transfer"))
    | some p ↦ locate_in p c.file_index
  ]

  -- The digest is looked at behind the last chunk only.
  abbrev pub verify : RecvProgress → FileChunk → b.Hasher → Result Failure ℕ
  verify p c hasher =
      if c.is_last
      then elim (get_elem? p.manifest.files c.file_index) [
        | none ↦ err panicked
        | some e ↦
            if b.finalize hasher == e.blake3
            then ok (sum_u64 p.bytes_received)
            else err (failed (other "blake3 mismatch"))
      ]
      else ok (sum_u64 p.bytes_received)

  abbrev pub advance : RecvProgress → ℕ → ℕ → b.Hasher → RecvProgress
  advance p i n hasher = record p {
    bytes_received = set p.bytes_received i (n % 2 ^ 64);
    hashers = set p.hashers i hasher;
  }

  -- The second lock of `write_chunk`: the counters are advanced before the digest is checked.
  unfoldable pub commit : Receiver → FileChunk → b.Hasher → Receiver × Result Failure ℕ
  commit s c hasher = elim (lookup c.transfer_id s.transfers) [
    | none ↦ (s, err (failed (other "unknown transfer")))
    | some p ↦ elim (get_elem? p.bytes_received c.file_index) [
      | none ↦ (s, err panicked)
      | some n ↦ elim (get_elem? p.hashers c.file_index) [
        | none ↦ (
          record s {
            transfers =
                insert c.transfer_id
                  (record p {
                    bytes_received =
                        set p.bytes_received c.file_index ((n + length c.bytes) % 2 ^ 64);
                  })
                  s.transfers;
          },
          err panicked,
        )
        | some old ↦
            let p' = advance p c.file_index (n + length c.bytes) hasher in
            (record s { transfers = insert c.transfer_id p' s.transfers }, verify p' c hasher)
      ]
    ]
  ]

  store : Receiver → FileChunk → FilePath → b.Hasher → Receiver × Result Failure ℕ
  unfolding commit
  store s c path hasher =
      let (d, written) = fs.write_at path c.offset c.bytes s.disk in
      elim written [
        | err x ↦ (record s { disk = d }, err (failed (io x)))
        | ok _ ↦ commit (record s { disk = d }) c (b.update hasher c.bytes)
      ]

  unfoldable pub write_chunk : Receiver → FileChunk → Receiver × Result Failure ℕ
  unfolding locate store
  write_chunk s c = elim (locate s c) [
    | err x ↦ (s, err x)
    | ok (path, (expected, hasher)) ↦
        if c.offset == expected
        then store s c path hasher
        else (s, err (failed (other "chunk out of order")))
  ]

  unfoldable pub resume_offsets : Receiver → ℕ → Option (List ℕ)
  resume_offsets s id = elim (lookup id s.transfers) [
    | none ↦ none
    | some p ↦ some p.bytes_received
  ]

  -- The chunks of one stream, one after the other; the first error ends it.
  unfoldable pub write_chunks : Receiver → List FileChunk → Receiver × Result Failure Done
  write_chunks s [] = (s, ok tt)
  write_chunks s (c ∷ cs) =
      let (s', result) = write_chunk s c in
      elim result [ err x ↦ (s', err x) | ok _ ↦ write_chunks s' cs ]
