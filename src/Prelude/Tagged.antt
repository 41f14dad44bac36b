-- ===== src/Prelude/Tagged.antt =====
-- Lists of items that carry a number: what came from one source, among what came from all.
use my_deskflow.Prelude.{
  ℕ, ◌≡◌, refl, ap, Bool-cases, List, [], ◌∷◌, ◌++◌, ◌==◌, if◌then◌else◌, inl, inr,
}

unfoldable pub from {ℓ} : {A : Type ℓ} → ℕ → List (ℕ × A) → List A
from i [] = []
from i ((j, a) ∷ items) = let rest = from i items in if i == j then a ∷ rest else rest

pub from-append {ℓ} :
    {A : Type ℓ} (i : ℕ) (xs ys : List (ℕ × A)) → from i (xs ++ ys) ≡ from i xs ++ from i ys
unfolding from
from-append i [] ys = refl
from-append i ((j, a) ∷ xs) ys =
    let ih = from-append i xs ys in
    elim (Bool-cases (i == j)) [ inl e ↦ rw e (ap (λ l. a ∷ l) ih) | inr e ↦ rw e ih ]
