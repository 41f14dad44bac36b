-- ===== src/Network/Tls/Identity.antt =====
-- The identity of crates/network/src/tls.rs over the calls of load_or_generate.
use my_deskflow.Prelude.{◌≡◌, refl, subst, ◌∙◌, ◌&&◌, Bool-cases, inl, inr}
use my_deskflow.Prelude.Bytes.{Bytes}
use my_deskflow.Core.Error.{ok, ◌>>=◌, map_err, bind_inversion, map_err-ok}
use my_deskflow.Core.Files.{FileSystem, FileLaws}
use my_deskflow.Network.Tls.{
  CertBundle, CertPaths, Generated, Hash, from_io, bundle_of, generation_error, load, store,
  load_or_store, load_or_generate,
}

module _ (fs : FileSystem) (laws : FileLaws fs) (hash : Hash) (paths : CertPaths) where
  open fs use {Files, exists, read, write, create_dir_all, IsDirectory}

  -- A directory in which both files can be read.
  reload :
      (f : Files) (cert key : Bytes) (generated : Generated)
      → IsDirectory f paths.dir
      → read f paths.cert_path ≡ ok cert
      → read f paths.key_path ≡ ok key
      → load_or_generate fs hash paths generated f ≡ ok (bundle_of hash cert key, f)
  unfolding load_or_generate load
  reload f cert key generated d rc rk =
      rw
        (
          laws.create_dir_all_again f paths.dir d,
          laws.exists-read f paths.cert_path cert rc,
          laws.exists-read f paths.key_path key rk,
          rc,
          rk,
        )
        refl

  -- What a successful call leaves: a directory with the two files of the bundle that it gave.
  unfoldable pub Leaves : Files → CertBundle → Type 0
  Leaves f bundle =
      (cert : Bytes) × (key : Bytes) × (bundle ≡ bundle_of hash cert key)
      × IsDirectory f paths.dir
      × (read f paths.cert_path ≡ ok cert)
      × (read f paths.key_path ≡ ok key)

  load-Leaves :
      (f g : Files) (bundle : CertBundle)
      → IsDirectory f paths.dir
      → load fs hash paths f ≡ ok (bundle, g)
      → Leaves g bundle
  unfolding load Leaves
  load-Leaves f g bundle d h =
      let (cert, rc, h') =
        bind_inversion (map_err from_io (read f paths.cert_path))
          (λ c. map_err from_io (read f paths.key_path) >>= λ k. ok (bundle_of hash c k, f)) h in
      let (key, rk, h'') =
        bind_inversion (map_err from_io (read f paths.key_path))
          (λ k. ok (bundle_of hash cert k, f)) h' in
      let same : f ≡ g = cc in
      (
        cert,
        key,
        cc,
        subst (λ x. IsDirectory x paths.dir) same d,
        subst (λ x. read x paths.cert_path ≡ ok cert) same (map_err-ok from_io _ rc),
        subst (λ x. read x paths.key_path ≡ ok key) same (map_err-ok from_io _ rk),
      )

  store-Leaves :
      (f g : Files) (cert key : Bytes) (bundle : CertBundle)
      → (paths.key_path ≡ paths.cert_path → ⊥)
      → IsDirectory f paths.dir
      → store fs hash paths f (cert, key) ≡ ok (bundle, g)
      → Leaves g bundle
  unfolding store Leaves
  store-Leaves f g cert key bundle apart d h =
      let (k, wc, h') = bind_inversion _ _ h in
      let (l, wk, h'') = bind_inversion _ _ h' in
      let wc' = map_err-ok from_io _ wc in
      let wk' = map_err-ok from_io _ wk in
      let same : l ≡ g = cc in
      (
        cert,
        key,
        cc,
        subst (λ x. IsDirectory x paths.dir) same
            (laws.write-IsDirectory k l paths.key_path paths.dir key wk'
              (laws.write-IsDirectory f k paths.cert_path paths.dir cert wc' d)),
        subst (λ x. read x paths.cert_path ≡ ok cert) same
            (laws.read-write_other k l paths.key_path paths.cert_path key apart wk'
              ∙ laws.read-write f k paths.cert_path cert wc'),
        subst (λ x. read x paths.key_path ≡ ok key) same
            (laws.read-write k l paths.key_path key wk'),
      )

  load_or_store-Leaves :
      (f g : Files) (generated : Generated) (bundle : CertBundle)
      → (paths.key_path ≡ paths.cert_path → ⊥)
      → IsDirectory f paths.dir
      → load_or_store fs hash paths generated f ≡ ok (bundle, g)
      → Leaves g bundle
  unfolding load_or_store
  load_or_store-Leaves f g generated bundle apart d h =
      elim (Bool-cases (exists f paths.cert_path && exists f paths.key_path)) [
        | inl both ↦ load-Leaves f g bundle d (rw both at h)
        | inr some_missing ↦
            let stored = rw some_missing at h in
            let ((cert, key), made, h') =
              bind_inversion (map_err generation_error generated) (store fs hash paths f) stored in
            store-Leaves f g cert key bundle apart d h'
      ]

  pub load_or_generate-Leaves :
      (f g : Files) (generated : Generated) (bundle : CertBundle)
      → (paths.key_path ≡ paths.cert_path → ⊥)
      → load_or_generate fs hash paths generated f ≡ ok (bundle, g)
      → Leaves g bundle
  unfolding load_or_generate
  load_or_generate-Leaves f g generated bundle apart h =
      let (k, made, h') =
        bind_inversion (map_err from_io (create_dir_all f paths.dir))
          (load_or_store fs hash paths generated) h in
      load_or_store-Leaves k g generated bundle apart
        (laws.create_dir_all-IsDirectory f k paths.dir
          (map_err-ok from_io (create_dir_all f paths.dir) made))
        h'

  -- The identity is stable: over a file system that keeps its laws, and with two paths that
  -- differ, after a call of load_or_generate has given a bundle, any later one on the files that
  -- it left gives the same bundle and changes nothing, whatever the generator would make.
  pub load_or_generate_again :
      (f g : Files) (generated later : Generated) (bundle : CertBundle)
      → (paths.key_path ≡ paths.cert_path → ⊥)
      → load_or_generate fs hash paths generated f ≡ ok (bundle, g)
      → load_or_generate fs hash paths later g ≡ ok (bundle, g)
  unfolding Leaves
  load_or_generate_again f g generated later bundle apart h =
      let (cert, key, same, d, rc, rk) = load_or_generate-Leaves f g generated bundle apart h in
      rw same (reload g cert key later d rc rk)
