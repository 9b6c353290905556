-- ===== src/Prelude/Double.antt =====
-- The IEEE doubles that the program only tests and passes on (pixel clocks), by value: a finite
-- double is a dyadic fraction, `finite n k` = n / 2 ^ k. The two zeros are one value here.
use mathlib.Core.Bool.{Bool, true, false}
use Prim.Native.Nat.{ℕ, zero, suc}
use mi_ster_cast.Prelude.Int.{ℤ, pos, negsuc}

pub data Double : Type 0 where
  nan : Double
  infinite : Bool → Double
  finite : ℤ → ℕ → Double

-- `std::isfinite`
abbrev pub is_finite : Double → Bool
is_finite (finite n k) = true
is_finite _ = false

-- `d <= 0.0`; an infinity carries `true` if it is negative.
abbrev pub le_zero : Double → Bool
le_zero nan = false
le_zero (infinite negative) = negative
le_zero (finite (pos zero) k) = true
le_zero (finite (pos (suc n)) k) = false
le_zero (finite (negsuc n) k) = true
