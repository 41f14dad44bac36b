-- ===== src/Platform/WindowsInject/Pointer.antt =====
-- The coordinates that crates/platform/src/windows/inject.rs gives to an absolute move.
use my_deskflow.Prelude.{ℕ, suc, ◌+◌, ◌*◌, ◌/◌, ◌<◌, ◌≤◌, ◌≡◌, arith}
use native.Mathlib.Nat.{div-mul-le_self, div-lt_iff_lt-mul, le-div_iff_mul-le}
use my_deskflow.Prelude.Int.{pos, wrap_i32_of_IsI32, pos_part}
use my_deskflow.Platform.WindowsInject.{normalized, quotient}

-- On the pixels of a side the code computes the true quotient, which is below 65535.
scaled_lt : (w a : ℕ) → a < suc w → a * 65535 / suc w < 65535
scaled_lt w a lt = (div-lt_iff_lt-mul {k = suc w} (omega arith)).1 (omega arith)

pub normalized-pixel :
    (w a : ℕ) → a < suc w → normalized (pos (suc w)) (pos a) ≡ pos (a * 65535 / suc w)
unfolding normalized quotient
normalized-pixel w a lt =
    let small = scaled_lt w a lt in wrap_i32_of_IsI32 (pos (a * 65535 / suc w)) (omega arith)

-- Every pixel of a side gets a coordinate below 65535, and on a side of at most 65535 pixels a
-- pixel further on gets a larger one.
pub normalized-strict :
    (w a b : ℕ)
    → w < 65535
    → a < b
    → b < suc w
    → (pos_part (normalized (pos (suc w)) (pos a)) < pos_part (normalized (pos (suc w)) (pos b)))
      × (pos_part (normalized (pos (suc w)) (pos b)) < 65535)
normalized-strict w a b small lt below =
    rw (normalized-pixel w a (omega arith), normalized-pixel w b below)
      (let back = div-mul-le_self (a * 65535) (suc w) in
        let next : suc (a * 65535 / suc w) ≤ b * 65535 / suc w =
          (le-div_iff_mul-le {k = suc w} (omega arith)).1 (
            let step : suc a * 65535 ≤ b * 65535 = omega arith in
            let one : suc (a * 65535 / suc w) * suc w ≡ a * 65535 / suc w * suc w + suc w =
              grind arith in
            omega arith) in
        (next, scaled_lt w b below))
