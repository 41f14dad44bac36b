-- ===== src/Core/Error.antt =====
-- crates/core/src/error.rs: the error type, and results with the `?` operator as `>>=`.
-- An error of the operating system or of a library carries its text.
use my_deskflow.Prelude.{ℕ, String, ◌≡◌, refl, ◌⊎◌, inl, inr}

pub data Error : Type 0 where
  io : String → Error
  config : String → Error
  config_missing : String → Error
  toml_de : String → Error
  toml_ser : String → Error
  protocol : String → Error
  network : String → Error
  platform : String → Error
  ipc : String → Error
  peer_rejected : ℕ → String → Error  -- the code and the text of the message
  version_mismatch : ℕ → ℕ → Error
  emergency_stop : Error
  cancelled : Error
  not_connected : Error
  other : String → Error

-- A result over any type of errors.
pub data Result {ℓ κ} (E : Type κ) (A : Type ℓ) : Type (ℓ ⊔ κ) where
  ok : A → Result E A
  err : E → Result E A

infixl 5 ◌>>=◌
abbrev pub ◌>>=◌ {ℓ κ μ} :
    {E : Type κ} {A : Type ℓ} {B : Type μ} → Result E A → (A → Result E B) → Result E B
ok a >>= f = f a
err e >>= f = err e

-- `map_err`.
abbrev pub map_err {ℓ κ μ} :
    {E : Type κ} {F : Type μ} {A : Type ℓ} → (E → F) → Result E A → Result F A
map_err f (ok a) = ok a
map_err f (err e) = err (f e)

-- To split on a result and keep the equation.
pub Result-cases {ℓ κ} :
    {E : Type κ} {A : Type ℓ} (r : Result E A) → ((a : A) × (r ≡ ok a)) ⊎ ((e : E) × (r ≡ err e))
Result-cases (ok a) = inl (a, refl)
Result-cases (err e) = inr (e, refl)

-- What a chain that succeeds went through.
pub bind_inversion {ε σ ρ} :
    {X : Type ε} {S : Type σ} {R : Type ρ} (first : Result X S) (next : S → Result X R) {last : R}
    → (first >>= next) ≡ ok last
    → (mid : S) × (first ≡ ok mid) × (next mid ≡ ok last)
bind_inversion (err x) next chain = cc
bind_inversion (ok mid) next chain = (mid, refl, chain)

pub map_err-ok {ℓ κ μ} :
    {E : Type κ} {F : Type μ} {A : Type ℓ} (g : E → F) (r : Result E A) {a : A}
    → map_err g r ≡ ok a
    → r ≡ ok a
map_err-ok g (ok a) h = cc
map_err-ok g (err e) h = cc

pub ok-inj {ℓ κ} : {E : Type κ} {A : Type ℓ} {a b : A} → ◌≡◌ {A = Result E A} (ok a) (ok b) → a ≡ b
ok-inj e = cc
