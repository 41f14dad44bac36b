-- ===== src/Daemon/Requests/Dialing.antt =====
-- What crates/daemon/src/ipc_server.rs dials on a request to connect.
use my_deskflow.Prelude.{
  ℕ, String, ◌≡◌, ◌↔◌, ◌⊎◌, inl, inr, refl, arith, true, false, Option, some, List, [], ◌∷◌,
}
use my_deskflow.Prelude.Bytes.{Bytes, to_ascii_lowercase}
use my_deskflow.Core.Error.{Error, Result, ok}
use my_deskflow.Core.Config.{Config}
use my_deskflow.Daemon.Lifecycle.{Bound}
use my_deskflow.Network.Tls.{Hash, accept_server}
use my_deskflow.Network.Tls.Pinning.{IsPinned, accept_server_iff}
use my_deskflow.Daemon.Requests.{
  ClientConfig, Daemon, update_config, connect, dial, Surroundings, pins, is_empty_text,
  dispatch_dial, handle_connect, handle_request,
}

-- A new configuration, its trusted fingerprints included, changes nothing about the dials of the
-- running daemon: a request to connect dispatches the same as before.
pub dispatched-update_config :
    (e : Surroundings) (binding : Result Error Bound) (d : Daemon) (bound : List ℕ) (new : Config)
    (addr : Bytes) (fp : Option Bytes)
    → let after = handle_request e binding d bound (update_config new) in
      (handle_request e binding after.daemon after.bound (connect addr fp)).dispatched
      ≡ (handle_request e binding d bound (connect addr fp)).dispatched
unfolding handle_request handle_connect dispatch_dial
dispatched-update_config e binding d bound new addr fp = ground arith

only :
    (pin fp : Bytes)
    → (pin ∷ [] ≡ []) ⊎ IsPinned (pin ∷ []) fp
    → to_ascii_lowercase pin ≡ to_ascii_lowercase fp
only pin fp (inl e) = cc
only pin fp (inr (inl same)) = same
only pin fp (inr (inr none_left)) = absurd none_left

-- The one pin of a client that was given one.
one_pin :
    (hash : Hash) (pin cert message signature : Bytes)
    → (accept_server hash (pin ∷ []) cert message signature ≡ ok tt)
      ↔ (to_ascii_lowercase pin ≡ to_ascii_lowercase (hash cert))
one_pin hash pin cert message signature =
    let law = accept_server_iff hash (pin ∷ []) cert message signature in
    (λ h. only pin (hash cert) (law.0 h), λ same. law.1 (inr (inl same)))

-- A request to connect, at a daemon in the client role, with an address that is found and a
-- fingerprint that is not blank, dials that address and nothing else, and the dial goes on with a
-- server exactly if the hash of the server's certificate is the trimmed fingerprint, but for the
-- case of its letters; what the daemon trusts besides plays no part.
pub connect-pins :
    (e : Surroundings) (binding : Result Error Bound) (d : Daemon) (bound : List ℕ)
    (addr fp : Bytes) (target : String) (cfg : ClientConfig) (hash : Hash)
    (cert message signature : Bytes)
    → e.resolve addr ≡ ok target
    → d.client_base ≡ some cfg
    → d.has_client_controller ≡ true
    → is_empty_text (e.trim fp) ≡ false
    → (c : ClientConfig) × ((handle_request e binding d bound (connect addr (some fp))).dispatched
        ≡ dial c ∷ [])
      × (c.server_addr ≡ target)
      × ((accept_server hash c.trusted_fingerprints cert message signature ≡ ok tt)
          ↔ (to_ascii_lowercase (e.trim fp) ≡ to_ascii_lowercase (hash cert)))
unfolding handle_request handle_connect dispatch_dial pins
connect-pins e binding d bound addr fp target cfg hash cert message signature found base client
      text =
    (
      record cfg { server_addr = target; trusted_fingerprints = e.trim fp ∷ [] },
      ground arith,
      refl,
      one_pin hash (e.trim fp) cert message signature,
    )
