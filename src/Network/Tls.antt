-- ===== src/Network/Tls.antt =====
-- crates/network/src/tls.rs: the stored identity of a machine, and what a client checks of a
-- server's. The hash, the generator of certificates and the file system are parameters.
pub mod Identity
pub mod Pinning
use my_deskflow.Prelude.{
  ℕ, String, Bool, true, false, ◌&&◌, ◌||◌, Option, none, some, List, [], ◌∷◌, if◌then◌else◌,
}
use my_deskflow.Prelude.Bytes.{Bytes, eq_ignore_ascii_case}
use my_deskflow.Core.Error.{Error, Result, ok, err, ◌>>=◌, map_err, io, network}
use my_deskflow.Core.Files.{FileSystem, IoError, not_found, failed}

pub record CertBundle : Type 0 where
  pub cert_chain : List Bytes
  pub key : Bytes
  pub fingerprint_hex : Bytes

-- `sha256_hex`, which is a call of blake3 and hex.
abbrev pub Hash : Type 0
Hash = Bytes → Bytes

abbrev pub from_io : IoError → Error
from_io not_found = io "not found"
from_io (failed s) = io s

abbrev pub bundle_of : Hash → Bytes → Bytes → CertBundle
bundle_of hash cert key = record { cert_chain = cert ∷ []; key = key; fingerprint_hex = hash cert }

-- What `generate_simple_self_signed` gives: a certificate and its key.
abbrev pub Generated : Type 0
Generated = Result String (Bytes × Bytes)

-- `dir.join("cert.der")` and `dir.join("key.der")`.
pub record CertPaths : Type 0 where
  pub dir : String
  pub cert_path : String
  pub key_path : String

-- `map_err(|e| Error::Network(format!("cert generation: {e}")))`.
abbrev pub generation_error : String → Error
generation_error e = network e

module _ (fs : FileSystem) (hash : Hash) where
  open fs use {Files, exists, read, write, create_dir_all}

  pub load : CertPaths → Files → Result Error (CertBundle × Files)
  load paths f = do
    cert ← map_err from_io (read f paths.cert_path)
    key ← map_err from_io (read f paths.key_path)
    ok (bundle_of hash cert key, f)

  pub store : CertPaths → Files → Bytes × Bytes → Result Error (CertBundle × Files)
  store paths f (cert, key) = do
    g ← map_err from_io (write f paths.cert_path cert)
    h ← map_err from_io (write g paths.key_path key)
    ok (bundle_of hash cert key, h)

  -- Behind `create_dir_all`.
  pub load_or_store : CertPaths → Generated → Files → Result Error (CertBundle × Files)
  unfolding load store
  load_or_store paths generated f =
      if exists f paths.cert_path && exists f paths.key_path
      then load paths f
      else (map_err generation_error generated >>= store paths f)

  unfoldable pub load_or_generate :
      CertPaths → Generated → Files → Result Error (CertBundle × Files)
  unfolding load_or_store
  load_or_generate paths generated f =
      map_err from_io (create_dir_all f paths.dir) >>= load_or_store paths generated

-- `self.pinned.iter().any(|p| p.eq_ignore_ascii_case(&fp))`.
any_pin : List Bytes → Bytes → Bool
any_pin [] fp = false
any_pin (p ∷ ps) fp = eq_ignore_ascii_case p fp || any_pin ps fp

abbrev pub is_empty : List Bytes → Bool
is_empty [] = true
is_empty (p ∷ ps) = false

-- `PinningVerifier::verify_server_cert`; the error is the text with the fingerprint.
unfoldable pub verify_server_cert : Hash → List Bytes → Bytes → Result Bytes (Unit {0})
unfolding any_pin
verify_server_cert hash pinned end_entity =
    let fp = hash end_entity in if is_empty pinned || any_pin pinned fp then ok tt else err fp

-- `verify_tls12_signature` and `verify_tls13_signature`, on a message, a certificate and a signature.
abbrev pub verify_tls_signature : Bytes → Bytes → Bytes → Result Bytes (Unit {0})
verify_tls_signature message cert signature = ok tt

-- What rustls asks of the verifier before it goes on with a server.
unfoldable pub accept_server : Hash → List Bytes → Bytes → Bytes → Bytes → Result Bytes (Unit {0})
accept_server hash pinned cert message signature = do
  _ ← verify_server_cert hash pinned cert
  verify_tls_signature message cert signature

-- `pinned.unwrap_or_default()`.
abbrev pub unwrap_or_default : Option (List Bytes) → List Bytes
unwrap_or_default none = []
unwrap_or_default (some pins) = pins
