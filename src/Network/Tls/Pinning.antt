-- ===== src/Network/Tls/Pinning.antt =====
-- Which servers a client of crates/network/src/tls.rs goes on with.
use my_deskflow.Prelude.{
  ◌≡◌, ◌↔◌, ◌⊎◌, inl, inr, refl, Bool, true, false, ◌||◌, List, [], ◌∷◌, arith,
}
use my_deskflow.Prelude.Bytes.{Bytes, to_ascii_lowercase, eq_ignore_ascii_case, eq_bytes_iff}
use my_deskflow.Core.Error.{ok}
use my_deskflow.Network.Tls.{Hash, any_pin, verify_server_cert, accept_server}

-- Some pin is the fingerprint, but for the case of its letters.
abbrev pub IsPinned : List Bytes → Bytes → Type 0
IsPinned [] fp = ⊥
IsPinned (p ∷ ps) fp = (to_ascii_lowercase p ≡ to_ascii_lowercase fp) ⊎ IsPinned ps fp

or-inversion : (b c : Bool) → (b || c) ≡ true → (b ≡ true) ⊎ (c ≡ true)
or-inversion true c h = inl refl
or-inversion false c h = inr h

IsPinned-any : (ps : List Bytes) (fp : Bytes) → any_pin ps fp ≡ true → IsPinned ps fp
unfolding any_pin eq_ignore_ascii_case
IsPinned-any [] fp h = cc
IsPinned-any (p ∷ ps) fp h = elim (or-inversion (eq_ignore_ascii_case p fp) (any_pin ps fp) h) [
  | inl here ↦ inl ((eq_bytes_iff (to_ascii_lowercase p) (to_ascii_lowercase fp)).0 here)
  | inr there ↦ inr (IsPinned-any ps fp there)
]

or-true : (b : Bool) → (b || true) ≡ true
or-true true = refl
or-true false = refl

any_pin-IsPinned : (ps : List Bytes) (fp : Bytes) → IsPinned ps fp → any_pin ps fp ≡ true
unfolding any_pin eq_ignore_ascii_case
any_pin-IsPinned [] fp h = absurd h
any_pin-IsPinned (p ∷ ps) fp (inl e) =
    rw ((eq_bytes_iff (to_ascii_lowercase p) (to_ascii_lowercase fp)).1 e) refl
any_pin-IsPinned (p ∷ ps) fp (inr later) =
    rw (any_pin-IsPinned ps fp later) (or-true (eq_ignore_ascii_case p fp))

accepted :
    (p : Bytes) (ps : List Bytes) (hash : Hash) (cert message signature : Bytes)
    → (p ∷ ps ≡ []) ⊎ IsPinned (p ∷ ps) (hash cert)
    → accept_server hash (p ∷ ps) cert message signature ≡ ok tt
unfolding accept_server verify_server_cert
accepted p ps hash cert message signature (inl e) = cc
accepted p ps hash cert message signature (inr pin) =
    rw (any_pin-IsPinned (p ∷ ps) (hash cert) pin) refl

-- A client goes on with a server exactly if it has no pins or the hash of the server's certificate
-- is one of them, but for the case of its letters; the server's signature decides nothing.
pub accept_server_iff :
    (hash : Hash) (pinned : List Bytes) (cert message signature : Bytes)
    → (accept_server hash pinned cert message signature ≡ ok tt)
      ↔ ((pinned ≡ []) ⊎ IsPinned pinned (hash cert))
unfolding accept_server verify_server_cert
accept_server_iff hash [] cert message signature = (λ h. inl refl, λ h. refl)
accept_server_iff hash (p ∷ ps) cert message signature = (
  λ h. inr (IsPinned-any (p ∷ ps) (hash cert) (ground arith)),
  λ h. accepted p ps hash cert message signature h,
)
