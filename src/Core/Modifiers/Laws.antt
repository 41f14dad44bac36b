-- ===== src/Core/Modifiers/Laws.antt =====
-- The bit sets of crates/core/src/event.rs as sets of flags, by tables over all of them.
use my_deskflow.Prelude.{
  zero, suc, ◌<◌, ◌≡◌, refl, ◌⊎◌, inl, inr, Bool, true, false, ◌&&◌, arith, ◌==◌, leb,
  if◌then◌else◌,
}
use my_deskflow.Core.Modifiers.{
  ModifierState, shift, ctrl, alt, super, caps_lock, num_lock, alt_gr, contains, insert, remove,
}

-- One of the seven flags.
abbrev pub IsFlag : ModifierState → Type 0
IsFlag f =
    (f ≡ shift)
    ⊎ ((f ≡ ctrl)
        ⊎ ((f ≡ alt) ⊎ ((f ≡ super) ⊎ ((f ≡ caps_lock) ⊎ ((f ≡ num_lock) ⊎ (f ≡ alt_gr))))))

every_flag : (ModifierState → Bool) → Bool
every_flag t =
    t shift && (t ctrl && (t alt && (t super && (t caps_lock && (t num_lock && t alt_gr)))))

every_flag-IsFlag :
    (t : ModifierState → Bool) (f : ModifierState) → every_flag t ≡ true → IsFlag f → t f ≡ true
unfolding every_flag
every_flag-IsFlag t f all (inl e) = rw e (ground arith)
every_flag-IsFlag t f all (inr (inl e)) = rw e (ground arith)
every_flag-IsFlag t f all (inr (inr (inl e))) = rw e (ground arith)
every_flag-IsFlag t f all (inr (inr (inr (inl e)))) = rw e (ground arith)
every_flag-IsFlag t f all (inr (inr (inr (inr (inl e))))) = rw e (ground arith)
every_flag-IsFlag t f all (inr (inr (inr (inr (inr (inl e)))))) = rw e (ground arith)
every_flag-IsFlag t f all (inr (inr (inr (inr (inr (inr e)))))) = rw e (ground arith)

every_set : (ModifierState → Bool) → ModifierState → Bool
every_set t zero = true
every_set t (suc m) = t m && every_set t m

every_set-lt :
    (t : ModifierState → Bool) (n m : ModifierState) → every_set t n ≡ true → m < n → t m ≡ true
unfolding every_set
every_set-lt t zero m all lt = absurd (omega arith)
every_set-lt t (suc n) m all lt = ground (arith, every_set-lt t n m)

same : Bool → Bool → Bool
same true b = b
same false true = false
same false false = true

same-eq : (b c : Bool) → same b c ≡ true → b ≡ c
unfolding same
same-eq true true h = refl
same-eq true false h = cc
same-eq false true h = cc
same-eq false false h = refl

inserts : ModifierState → ModifierState → ModifierState → Bool
inserts m f g = same (contains (insert m f) g) (if f == g then true else contains m g)

removes : ModifierState → ModifierState → ModifierState → Bool
removes m f g = same (contains (remove m f) g) (if f == g then false else contains m g)

table :
    every_set (λ m. every_flag (λ f. every_flag (λ g. inserts m f g && removes m f g))) 128 ≡ true
unfolding every_set every_flag inserts removes same contains insert remove
table = refl

at_table :
    (m f g : ModifierState)
    → m < 128
    → IsFlag f
    → IsFlag g
    → (inserts m f g && removes m f g) ≡ true
at_table m f g lt is_f is_g =
    every_flag-IsFlag (λ k. inserts m f k && removes m f k) g
      (every_flag-IsFlag (λ j. every_flag (λ k. inserts m j k && removes m j k)) f
        (every_set-lt (λ n. every_flag (λ j. every_flag (λ k. inserts n j k && removes n j k))) 128
          m table lt)
        is_f)
      is_g

-- A flag is in a set behind an insertion if it was inserted or was in it.
pub contains-insert :
    (m f g : ModifierState)
    → m < 128
    → IsFlag f
    → IsFlag g
    → contains (insert m f) g ≡ (if f == g then true else contains m g)
unfolding inserts
contains-insert m f g lt is_f is_g =
    same-eq _ _ (let both = at_table m f g lt is_f is_g in ground arith)

pub contains-remove :
    (m f g : ModifierState)
    → m < 128
    → IsFlag f
    → IsFlag g
    → contains (remove m f) g ≡ (if f == g then false else contains m g)
unfolding removes
contains-remove m f g lt is_f is_g =
    same-eq _ _ (let both = at_table m f g lt is_f is_g in ground arith)

stays_below : ModifierState → ModifierState → Bool
stays_below m f = leb (insert m f) 127 && leb (remove m f) 127

below_table : every_set (λ m. every_flag (λ f. stays_below m f)) 128 ≡ true
unfolding every_set every_flag stays_below insert remove
below_table = refl

-- No flag but the seven ever comes in.
pub insert-remove_lt :
    (m f : ModifierState) → m < 128 → IsFlag f → (insert m f < 128) × (remove m f < 128)
unfolding stays_below
insert-remove_lt m f lt is_f =
    let both =
      every_flag-IsFlag (λ j. stays_below m j) f
        (every_set-lt (λ n. every_flag (λ j. stays_below n j)) 128 m below_table lt) is_f in
    (ground arith, ground arith)
