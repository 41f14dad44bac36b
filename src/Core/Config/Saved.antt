-- ===== src/Core/Config/Saved.antt =====
-- What the file of crates/core/src/config.rs keeps.
use my_deskflow.Prelude.{String, ◌≡◌, refl, Option}
use my_deskflow.Core.Error.{ok, ◌>>=◌, map_err, toml_ser, bind_inversion, map_err-ok}
use my_deskflow.Core.Files.{FileSystem, FileLaws}
use my_deskflow.Core.Config.{
  Config, Toml, ReadsBack, write_error, load, create_parent, save, load_or_default,
}

module _ (fs : FileSystem) (laws : FileLaws fs) (toml : Toml) where
  open fs use {Files, read, write}

  -- A configuration that was saved is the one that is loaded, and that load_or_default gives.
  pub load-save :
      (f g : Files) (c : Config) (parent : Option String) (path name : String)
      → ReadsBack toml c
      → save fs toml f c parent path ≡ ok g
      → (load fs toml g path ≡ ok c) × (load_or_default fs toml name g path ≡ c)
  unfolding load save load_or_default
  load-save f g c parent path name back h =
      let (k, made, h') =
        bind_inversion (create_parent fs toml f parent)
          (λ k. map_err toml_ser (toml.to_string_pretty c) >>= λ text.
            map_err write_error (write k path text))
          h in
      let (text, shown, written) =
        bind_inversion (map_err toml_ser (toml.to_string_pretty c))
          (λ text. map_err write_error (write k path text)) h' in
      let kept =
        laws.read-write k g path text (map_err-ok write_error (write k path text) written) in
      let same = back text (map_err-ok toml_ser (toml.to_string_pretty c) shown) in
      let loaded : load fs toml g path ≡ ok c = rw (kept, same) refl in
      (loaded, rw (loaded, load_or_default) refl)
