-- ===== src/Platform/Screens/Cover.antt =====
-- The screen of crates/platform/src/windows/mod.rs against the monitors that it stands for.
use my_deskflow.Prelude.{
  ℕ, zero, suc, get_elem?, some, ◌≡◌, refl, String, List, [], ◌∷◌, arith, All,
}
use my_deskflow.Prelude.Int.{
  ℤ, pos, negsuc, ◌+ℤ◌, ◌-ℤ◌, ◌≤ℤ◌, wrap_i32_of_IsI32, IsI32, +ℤ_parts, -ℤ_parts,
}
use my_deskflow.Platform.Screens.{
  MonitorInfo, Bounds, min_ℤ, max_ℤ, add_i32, widen, bounds_from, no_bounds, i32_max, i32_min,
  extent, local_screen_info,
}

-- A side of a monitor: it starts within 2^29 of the origin and is at most 2^29 long.
abbrev pub IsModest : ℤ → ℤ → Type 0
IsModest at size =
    (negsuc 536870911 ≤ℤ at) × (at ≤ℤ pos 536870912) × (pos 0 ≤ℤ size) × (size ≤ℤ pos 536870912)

add_modest : (a b : ℤ) → IsModest a b → add_i32 a b ≡ a +ℤ b
unfolding ◌+ℤ◌
add_modest (pos a) (pos b) h = wrap_i32_of_IsI32 _ (ground arith)
add_modest (negsuc a) (pos b) h = wrap_i32_of_IsI32 _ (ground arith)
add_modest (pos a) (negsuc b) h = absurd (omega arith)
add_modest (negsuc a) (negsuc b) h = absurd (omega arith)

-- The two halves of the fold, for one field of the tuple.
fold_min : (MonitorInfo → ℤ) → ℤ → List MonitorInfo → ℤ
fold_min f a [] = a
fold_min f a (m ∷ ms) = fold_min f (min_ℤ a (f m)) ms

fold_max : (MonitorInfo → ℤ) → ℤ → List MonitorInfo → ℤ
fold_max f a [] = a
fold_max f a (m ∷ ms) = fold_max f (max_ℤ a (f m)) ms

bounds_from-folds :
    (b : Bounds) (ms : List MonitorInfo)
    → bounds_from b ms ≡ record {
      min_x = fold_min (λ m. m.x) b.min_x ms;
      min_y = fold_min (λ m. m.y) b.min_y ms;
      max_x = fold_max (λ m. add_i32 m.x m.width) b.max_x ms;
      max_y = fold_max (λ m. add_i32 m.y m.height) b.max_y ms;
    }
unfolding bounds_from widen fold_min fold_max
bounds_from-folds b [] = refl
bounds_from-folds b (m ∷ ms) = bounds_from-folds (widen b m) ms

module _ (f : MonitorInfo → ℤ) where
  fold_min_le : (a : ℤ) (ms : List MonitorInfo) → fold_min f a ms ≤ℤ a
  unfolding fold_min
  fold_min_le a [] = omega arith
  fold_min_le a (n ∷ ms) = ground (arith, fold_min_le (min_ℤ a (f n)) ms)

  fold_min_le_at :
      (a : ℤ) (ms : List MonitorInfo) (i : ℕ) (m : MonitorInfo)
      → get_elem? ms i ≡ some m
      → fold_min f a ms ≤ℤ f m
  unfolding fold_min
  fold_min_le_at a [] i m h = ground arith
  fold_min_le_at a (n ∷ ms) zero m h = ground (arith, fold_min_le (min_ℤ a (f n)) ms)
  fold_min_le_at a (n ∷ ms) (suc i) m h = fold_min_le_at (min_ℤ a (f n)) ms i m h

  le_fold_min :
      (k a : ℤ) (ms : List MonitorInfo) → k ≤ℤ a → All (λ m. k ≤ℤ f m) ms → k ≤ℤ fold_min f a ms
  unfolding fold_min
  le_fold_min k a [] h all = h
  le_fold_min k a (n ∷ ms) h all = le_fold_min k (min_ℤ a (f n)) ms (ground arith) all.1

  le_fold_max : (a : ℤ) (ms : List MonitorInfo) → a ≤ℤ fold_max f a ms
  unfolding fold_max
  le_fold_max a [] = omega arith
  le_fold_max a (n ∷ ms) = ground (arith, le_fold_max (max_ℤ a (f n)) ms)

  le_fold_max_at :
      (a : ℤ) (ms : List MonitorInfo) (i : ℕ) (m : MonitorInfo)
      → get_elem? ms i ≡ some m
      → f m ≤ℤ fold_max f a ms
  unfolding fold_max
  le_fold_max_at a [] i m h = ground arith
  le_fold_max_at a (n ∷ ms) zero m h = ground (arith, le_fold_max (max_ℤ a (f n)) ms)
  le_fold_max_at a (n ∷ ms) (suc i) m h = le_fold_max_at (max_ℤ a (f n)) ms i m h

  fold_max_le :
      (k a : ℤ) (ms : List MonitorInfo) → a ≤ℤ k → All (λ m. f m ≤ℤ k) ms → fold_max f a ms ≤ℤ k
  unfolding fold_max
  fold_max_le k a [] h all = h
  fold_max_le k a (n ∷ ms) h all = fold_max_le k (max_ℤ a (f n)) ms (ground arith) all.1

max_zero : (a : ℤ) → pos 0 ≤ℤ a → max_ℤ a (pos 0) ≡ a
max_zero (pos a) h = ground arith
max_zero (negsuc a) h = absurd (omega arith)

IsNarrow : ℤ → ℤ → Type 0
IsNarrow lo hi = (negsuc 536870911 ≤ℤ lo) × (lo ≤ℤ hi) × (hi ≤ℤ pos 1073741824)

distance_IsI32 : (lo hi : ℤ) → IsNarrow lo hi → IsI32 (hi -ℤ lo)
unfolding ◌-ℤ◌ IsNarrow
distance_IsI32 (pos a) (pos b) h = ground arith
distance_IsI32 (negsuc a) (pos b) h = ground arith
distance_IsI32 (pos a) (negsuc b) h = ground arith
distance_IsI32 (negsuc a) (negsuc b) h = ground arith

-- The extent of bounds that fit is their distance.
extent-near : (lo hi : ℤ) → IsNarrow lo hi → extent lo hi ≡ hi -ℤ lo
unfolding IsNarrow
extent-near lo hi h =
    rw (wrap_i32_of_IsI32 (hi -ℤ lo) (distance_IsI32 lo hi h))
      (max_zero (hi -ℤ lo) (omega (arith, -ℤ_parts hi lo)))

is_narrow :
    (lo hi a e : ℤ)
    → negsuc 536870911 ≤ℤ lo
    → lo ≤ℤ a
    → a ≤ℤ e
    → e ≤ℤ hi
    → hi ≤ℤ pos 1073741824
    → IsNarrow lo hi
unfolding IsNarrow
is_narrow lo hi a e floor low grows high ceiling = (floor, omega arith, ceiling)

within_extent : (a b lo hi : ℤ) → IsNarrow lo hi → lo ≤ℤ a → b ≤ℤ hi → b ≤ℤ a +ℤ extent lo hi
within_extent a b lo hi h low high =
    rw (extent-near lo hi h) (omega (arith, -ℤ_parts hi lo, +ℤ_parts a (hi -ℤ lo)))

le-add : (a s : ℤ) → IsModest a s → (a ≤ℤ a +ℤ s) × (a +ℤ s ≤ℤ pos 1073741824)
le-add a s h = (omega (arith, +ℤ_parts a s), omega (arith, +ℤ_parts a s))

-- Along one axis.
module _ (at size : MonitorInfo → ℤ) where
  abbrev end : MonitorInfo → ℤ
  end m = add_i32 (at m) (size m)

  abbrev extent_of : List MonitorInfo → ℤ
  extent_of ms = extent (fold_min at i32_max ms) (fold_max end i32_min ms)

  starts :
      (ms : List MonitorInfo)
      → All (λ m. IsModest (at m) (size m)) ms
      → All (λ m. negsuc 536870911 ≤ℤ at m) ms
  starts [] all = tt
  starts (m ∷ ms) all = (all.0.0, starts ms all.1)

  ends :
      (ms : List MonitorInfo)
      → All (λ m. IsModest (at m) (size m)) ms
      → All (λ m. end m ≤ℤ pos 1073741824) ms
  ends [] all = tt
  ends (m ∷ ms) all =
      (rw (add_modest (at m) (size m) all.0) (le-add (at m) (size m) all.0).1, ends ms all.1)

  at_index :
      (ms : List MonitorInfo) (i : ℕ) (m : MonitorInfo)
      → All (λ m. IsModest (at m) (size m)) ms
      → get_elem? ms i ≡ some m
      → IsModest (at m) (size m)
  at_index [] i m all h = ground arith
  at_index (n ∷ ms) zero m all h = ground arith
  at_index (n ∷ ms) (suc i) m all h = at_index ms i m all.1 h

  extent_of-covers :
      (ms : List MonitorInfo) (i j : ℕ) (m n : MonitorInfo)
      → All (λ m. IsModest (at m) (size m)) ms
      → get_elem? ms i ≡ some m
      → get_elem? ms j ≡ some n
      → at n +ℤ size n ≤ℤ at m +ℤ extent_of ms
  extent_of-covers ms i j m n all hm hn =
      let start = at_index ms j n all hn in
      let sum = add_modest (at n) (size n) start in
      let low = fold_min_le_at at i32_max ms j n hn in
      let high = rw sum at (le_fold_max_at end i32_min ms j n hn) in
      let floor = le_fold_min at (negsuc 536870911) i32_max ms (omega arith) (starts ms all) in
      let ceiling = fold_max_le end (pos 1073741824) i32_min ms (omega arith) (ends ms all) in
      let grows = le-add (at n) (size n) start in
      within_extent (at m) (at n +ℤ size n) (fold_min at i32_max ms) (fold_max end i32_min ms)
        (is_narrow _ _ (at n) (at n +ℤ size n) floor low grows.0 high ceiling)
        (fold_min_le_at at i32_max ms i m hm) high

-- The rectangle of a monitor is modest.
abbrev pub IsModestMonitor : MonitorInfo → Type 0
IsModestMonitor m = IsModest m.x m.width × IsModest m.y m.height

x-IsModest : (ms : List MonitorInfo) → All IsModestMonitor ms → All (λ m. IsModest m.x m.width) ms
x-IsModest [] all = tt
x-IsModest (m ∷ ms) all = (all.0.0, x-IsModest ms all.1)

y-IsModest : (ms : List MonitorInfo) → All IsModestMonitor ms → All (λ m. IsModest m.y m.height) ms
y-IsModest [] all = tt
y-IsModest (m ∷ ms) all = (all.0.1, y-IsModest ms all.1)

-- For monitors whose sides start within 2^29 of the origin and are at most 2^29 long: from the
-- left edge of any of them to the right edge of any is at most the width of the screen, and from
-- the top of any to the bottom of any at most its height.
pub local_screen_info-covers :
    (hostname : String) (ms : List MonitorInfo) (i j : ℕ) (m n : MonitorInfo)
    → All IsModestMonitor ms
    → get_elem? ms i ≡ some m
    → get_elem? ms j ≡ some n
    → (n.x +ℤ n.width ≤ℤ m.x +ℤ (local_screen_info hostname ms).width)
      × (n.y +ℤ n.height ≤ℤ m.y +ℤ (local_screen_info hostname ms).height)
unfolding local_screen_info
local_screen_info-covers hostname [] i j m n all hm hn = ground arith
local_screen_info-covers hostname (o ∷ ms) i j m n all hm hn =
    rw (bounds_from-folds no_bounds (o ∷ ms)) (
      extent_of-covers (λ m. m.x) (λ m. m.width) (o ∷ ms) i j m n (x-IsModest (o ∷ ms) all) hm hn,
      extent_of-covers (λ m. m.y) (λ m. m.height) (o ∷ ms) i j m n (y-IsModest (o ∷ ms) all) hm hn,
    )
