-- ===== src/Transfer/Manager/Absolute.antt =====
-- Files that are named by an absolute path, from crates/daemon/src/filetransfer_mgr.rs to the
-- receiver of crates/filetransfer/src/lib.rs.
use my_deskflow.Prelude.{
  ℕ, ◌≡◌, refl, sym, ap, ◌∙◌, true, ◌⊎◌, inl, inr, List, [], ◌∷◌, ==_iff, subst,
}
use my_deskflow.Core.Error.{Error, Result, ok, err, map_err, io, other, bind_inversion}
use my_deskflow.Protocol.Message.{FileManifest, FileEntry, FileOffer}
use my_deskflow.Transfer.Paths.{is_absolute, sanitize}
use my_deskflow.Transfer.Receiver.{FileSystem, Blake3, Receiver}
use my_deskflow.Transfer.Receiver.Refusal.{HasRefused, begin_refused}
use my_deskflow.Transfer.Sender.{build_entry}
use my_deskflow.Transfer.Manager.{
  Source, abs_path, total_from, build_entries, build_manifest, handle_offer,
}

-- One of the paths is absolute.
abbrev pub HasAbsolute : List (List ℕ) → Type 0
HasAbsolute [] = ⊥
HasAbsolute (f ∷ fs) = (is_absolute f ≡ true) ⊎ HasAbsolute fs

abbrev pub paths_of : List FileEntry → List (List ℕ)
paths_of [] = []
paths_of (e ∷ es) = e.relative_path ∷ paths_of es

entry-inj :
    {e : FileEntry} {es es' : List FileEntry}
    → ◌≡◌ {A = Result Error (List FileEntry)} (ok (e ∷ es)) (ok es')
    → e ∷ es ≡ es'
entry-inj h = cc

manifest-inj : {m m' : FileManifest} → ◌≡◌ {A = Result Error FileManifest} (ok m) (ok m') → m ≡ m'
manifest-inj h = cc

-- The manifest names the files as the user did.
build_entries_paths :
    (src : Source) (b : Blake3) (root : List ℕ) (files : List (List ℕ)) (es : List FileEntry)
    → build_entries src b root files ≡ ok es
    → paths_of es ≡ files
unfolding build_entries build_entry
build_entries_paths src b root [] [] h = refl
build_entries_paths src b root [] (e ∷ es) h = absurd (cc)
build_entries_paths src b root (f ∷ fs) es h =
    let (reads, opened, h') =
      bind_inversion (map_err io (src.open_file (abs_path src root f))) _ h in
    let (rest, built, same) =
      bind_inversion (build_entries src b root fs) (λ es. ok (build_entry b f reads ∷ es)) h' in
    ap paths_of (sym (entry-inj same))
    ∙ ap (λ ps. f ∷ ps) (build_entries_paths src b root fs rest built)

sanitize_absolute : (f : List ℕ) → is_absolute f ≡ true → (e : Error) × (sanitize f ≡ err e)
unfolding sanitize
sanitize_absolute [] h = absurd (cc)
sanitize_absolute (c ∷ cs) h =
    let slash : c ≡ 47 = (==_iff c 47).0 h in (other "absolute path rejected", rw slash refl)

HasAbsolute-HasRefused : (es : List FileEntry) → HasAbsolute (paths_of es) → HasRefused es
HasAbsolute-HasRefused [] h = absurd h
HasAbsolute-HasRefused (e ∷ es) (inl h) = inl (sanitize_absolute e.relative_path h)
HasAbsolute-HasRefused (e ∷ es) (inr h) = inr (HasAbsolute-HasRefused es h)

manifest_files :
    (src : Source) (b : Blake3) (root : List ℕ) (files : List (List ℕ)) (m : FileManifest)
    → build_manifest src b root files ≡ ok m
    → paths_of m.files ≡ files
unfolding build_manifest
manifest_files src b root files m h =
    let (es, built, same) =
      bind_inversion (build_entries src b root files)
        (λ es. ok (record { files = es; total_bytes = total_from src 0 es })) h in
    ap (λ (m : FileManifest). paths_of m.files) (sym (manifest-inj same))
    ∙ build_entries_paths src b root files es built

-- An offer with the manifest that build_manifest gives for files of which one is named by an
-- absolute path is refused by every receiver, whatever its disk, and no transfer is begun.
pub absolute_is_refused :
    (src : Source) (b : Blake3) (fs : FileSystem) (s : Receiver fs b) (root : List ℕ)
    (files : List (List ℕ)) (offer : FileOffer)
    → build_manifest src b root files ≡ ok offer.manifest
    → HasAbsolute files
    → ((x : Error) × ((handle_offer fs b s offer).1 ≡ err x))
      × ((handle_offer fs b s offer).0.transfers ≡ s.transfers)
unfolding handle_offer
absolute_is_refused src b fs s root files offer built h =
    begin_refused fs b s offer.transfer_id offer.manifest (
      HasAbsolute-HasRefused offer.manifest.files
        (subst HasAbsolute (sym (manifest_files src b root files offer.manifest built)) h))
