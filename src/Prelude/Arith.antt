-- ===== src/Prelude/Arith.antt =====
-- Products of bounded numbers, which the arithmetic tactics take for unknowns.
use Prim.Native.Nat.{ℕ, ◌+◌, ◌*◌, ◌≤◌, ◌<◌}
use native.Mathlib.Omega.{arith}

pub mul_le_mul : (a b m n : ℕ) → a ≤ m → b ≤ n → a * b ≤ m * n
mul_le_mul a b m n p q = grind arith

-- A cell of a grid lies inside the grid.
pub cell-lt :
    (row col width height : ℕ) → row < height → col < width → row * width + col < height * width
cell-lt row col width height p q = grind arith

pub mul-pos : (a b : ℕ) → 0 < a → 0 < b → 0 < a * b
mul-pos a b p q = grind arith
