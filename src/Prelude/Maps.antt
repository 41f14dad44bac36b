-- ===== src/Prelude/Maps.antt =====
-- Maps with numbers as keys: the list of their entries, one for a key.
use Prim.Native.Nat.{ℕ}
use mathlib.Core.Path.{◌≡◌}
use mathlib.Core.Option.{Option, none, some}
use mathlib.Core.List.{List, [], ◌∷◌}
use native.Mathlib.Omega.{arith}
use my_deskflow.Prelude.Tests.{◌==◌, if◌then◌else◌}

module _ {ℓ} {V : Type ℓ} where
  unfoldable pub lookup : ℕ → List (ℕ × V) → Option V
  lookup k [] = none
  lookup k (e ∷ m) = let rest = lookup k m in if e.0 == k then some e.1 else rest

  unfoldable pub insert : ℕ → V → List (ℕ × V) → List (ℕ × V)
  insert k v [] = (k, v) ∷ []
  insert k v (e ∷ m) = let rest = insert k v m in if e.0 == k then (k, v) ∷ m else e ∷ rest

  pub lookup-insert : (k : ℕ) (v : V) (m : List (ℕ × V)) → lookup k (insert k v m) ≡ some v
  unfolding lookup insert
  lookup-insert k v [] = ground arith
  lookup-insert k v (e ∷ m) = ground (arith, lookup-insert k v m)

  pub lookup-insert_other :
      (j k : ℕ) (v : V) (m : List (ℕ × V)) → (j ≡ k → ⊥) → lookup j (insert k v m) ≡ lookup j m
  unfolding lookup insert
  lookup-insert_other j k v [] ne = ground arith
  lookup-insert_other j k v (e ∷ m) ne = ground (arith, lookup-insert_other j k v m ne)
