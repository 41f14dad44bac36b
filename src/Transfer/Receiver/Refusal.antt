-- ===== src/Transfer/Receiver/Refusal.antt =====
-- Offers that `begin` of crates/filetransfer/src/lib.rs refuses.
use my_deskflow.Prelude.{ℕ, ◌≡◌, refl, ◌⊎◌, inl, inr, List, [], ◌∷◌}
use my_deskflow.Core.Error.{Error, err, io, Result-cases}
use my_deskflow.Protocol.Message.{FileManifest, FileEntry}
use my_deskflow.Transfer.Paths.{sanitize}
use my_deskflow.Transfer.Receiver.{
  FileSystem, Blake3, FilePath, Receiver, begin, open_entries, open_entry,
}

-- One of the paths does not pass `sanitize`.
abbrev pub HasRefused : List FileEntry → Type 0
HasRefused [] = ⊥
HasRefused (e ∷ es) = ((x : Error) × (sanitize e.relative_path ≡ err x)) ⊎ HasRefused es

module _ (fs : FileSystem) (b : Blake3) where
  open_entries_refused :
      (dir : FilePath) (es : List FileEntry) (disk : fs.Disk)
      → HasRefused es
      → (x : Error) × ((open_entries fs b dir es disk).1 ≡ err x)
  unfolding open_entries open_entry
  open_entries_refused dir [] disk h = absurd h
  open_entries_refused dir (e ∷ es) disk (inl (x, refused)) = (x, rw (refused, open_entries) refl)
  open_entries_refused dir (e ∷ es) disk (inr h) =
      elim (Result-cases (open_entry fs b dir e disk).1) [
        | inr (x, failed) ↦ (x, rw (failed, open_entries) refl)
        | inl (path, opened) ↦
            let (x, rest) = open_entries_refused dir es (open_entry fs b dir e disk).0 h in
            (x, rw (opened, open_entries) (rw rest refl))
      ]

  -- A transfer with such a path is refused, and none is registered.
  pub begin_refused :
      (s : Receiver fs b) (id : ℕ) (m : FileManifest)
      → HasRefused m.files
      → ((x : Error) × ((begin fs b s id m).1 ≡ err x))
        × ((begin fs b s id m).0.transfers ≡ s.transfers)
  unfolding begin
  begin_refused s id m h = elim (Result-cases (fs.create_dir_all s.drop_dir s.disk).1) [
    | inr (x, failed) ↦ ((io x, rw (failed, begin) refl), rw (failed, begin) refl)
    | inl (t, made) ↦
        let (x, refused) =
          open_entries_refused s.drop_dir m.files (fs.create_dir_all s.drop_dir s.disk).0 h in
        ((x, rw (made, begin) (rw refused refl)), rw (made, begin) (rw refused refl))
  ]
