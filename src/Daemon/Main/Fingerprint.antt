-- ===== src/Daemon/Main/Fingerprint.antt =====
-- What the command `fingerprint` of crates/daemon/src/main.rs prints.
use my_deskflow.Prelude.{
  ◌≡◌, refl, sym, subst, ap, ◌∙◌, inl, inr, String, Bool, true, false, not, Option, List, [], ◌∷◌,
}
use my_deskflow.Prelude.Bytes.{Bytes}
use my_deskflow.Core.Error.{ok, bind_inversion, ok-inj}
use my_deskflow.Core.Files.{FileSystem, FileLaws}
use my_deskflow.Core.Config.{Config, Toml, load}
use my_deskflow.Network.Tls.{CertBundle, CertPaths, Hash, load_or_generate, accept_server}
use my_deskflow.Network.Tls.Identity.{Leaves, load_or_generate-Leaves, load_or_generate_again}
use my_deskflow.Network.Tls.Pinning.{accept_server_iff}
use my_deskflow.Daemon.Startup.{configure, or_missing, set_up_role}
use my_deskflow.Daemon.Startup.Roles.{make_controller-ok}
use my_deskflow.Daemon.Main.{
  Host, Outcome, run_daemon, fingerprint, running, printed, path_of, bind_ipc, print_fingerprint,
  run, main,
}

bind_ipc-ok : (h : Host) (enabled : Bool) → h.listener ≡ ok tt → bind_ipc h enabled ≡ ok tt
bind_ipc-ok h true listens = listens
bind_ipc-ok h false listens = refl

module _ (fs : FileSystem) (laws : FileLaws fs) (toml : Toml) (hash : Hash) where
  open fs use {Files, read}

  printed-bundle :
      (h : Host) (f g : Files) (paths : CertPaths) (fp : Bytes)
      → h.cert_dir ≡ ok paths
      → print_fingerprint fs toml hash h f ≡ ok (printed fp, g)
      → (b : CertBundle) × (load_or_generate fs hash paths h.generated f ≡ ok (b, g))
        × (b.fingerprint_hex ≡ fp)
  unfolding print_fingerprint
  printed-bundle h f g paths fp dir shown =
      let ((b, k), made, shown') =
        bind_inversion (load_or_generate fs hash paths h.generated f)
          (λ r. ok (printed r.0.fingerprint_hex, r.1)) (rw dir at shown) in
      (
        b,
        subst (λ l. load_or_generate fs hash paths h.generated f ≡ ok (b, l))
            (ap (λ (r : Outcome × Files). r.1) (ok-inj shown')) made,
        cc,
      )

  -- A client with one pin, the fingerprint of a certificate.
  accept_own :
      (cert message signature : Bytes)
      → accept_server hash (hash cert ∷ []) cert message signature ≡ ok tt
  accept_own cert message signature =
      (accept_server_iff hash (hash cert ∷ []) cert message signature).1 (inr (inl refl))

  -- Over a file system that keeps its laws, with two paths for the identity that differ: after
  -- `fingerprint` has printed a text, `run` on the files that it left, where the configuration can
  -- be read, the options fit it, there is a platform, the socket can be bound and the endpoint of
  -- a client can be made, starts the daemon with that text as its fingerprint and changes no file,
  -- whatever a new certificate would be; and a client that pins the text goes on with a server of
  -- the stored certificate.
  pub run-fingerprint :
      (h later : Host) (f g : Files) (paths : CertPaths) (fp : Bytes) (config at : Option String)
      (path : String) (loaded c : Config) (role : Option Bytes) (listen connect : Option String)
      (pin : List Bytes) (no_ipc : Bool) (message signature : Bytes)
      → (paths.key_path ≡ paths.cert_path → ⊥)
      → h.cert_dir ≡ ok paths
      → main fs toml hash h config fingerprint f ≡ ok (printed fp, g)
      → later.cert_dir ≡ ok paths
      → path_of later at ≡ ok path
      → or_missing later.name (load fs toml g path) ≡ ok loaded
      → configure
          (record {
            role_override = role;
            listen_override = listen;
            connect_override = connect;
            pinned_fingerprints = pin;
          })
          loaded
        ≡ ok c
      → later.platform ≡ ok tt
      → later.listener ≡ ok tt
      → later.endpoint ≡ ok tt
      → (main fs toml hash later at (run_daemon role listen connect pin no_ipc) g
          ≡ ok (running (set_up_role later.id fp c c.role) (not no_ipc), g))
        × ((cert : Bytes) × (read g paths.cert_path ≡ ok cert)
            × (accept_server hash (fp ∷ []) cert message signature ≡ ok tt))
  unfolding main run Leaves
  run-fingerprint h later f g paths fp config at path loaded c role listen connect pin no_ipc
        message signature apart dir shown dir' found read_ok args platform listener bound =
      let (b, made, same) = printed-bundle h f g paths fp dir shown in
      let again =
        load_or_generate_again fs laws hash paths f g h.generated later.generated b apart made in
      let (cert, key, bundle, d, rc, rk) =
        load_or_generate-Leaves fs laws hash paths f g h.generated b apart made in
      let hashed : hash cert ≡ fp =
        sym (ap (λ (x : CertBundle). x.fingerprint_hex) bundle) ∙ same in
      (
        rw
            (
              found,
              read_ok,
              args,
              dir',
              again,
              platform,
              same,
              bind_ipc-ok later (not no_ipc) listener,
              make_controller-ok c.role later.endpoint bound,
            )
            refl,
        (
          cert,
          rc,
          subst (λ p. accept_server hash (p ∷ []) cert message signature ≡ ok tt) hashed
              (accept_own cert message signature),
        ),
      )
