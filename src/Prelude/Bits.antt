-- ===== src/Prelude/Bits.antt =====
-- The bit operations at variables: `|` of values that share no binary digit is a sum, and a mask of
-- ones is a remainder.
use Prim.Native.Nat.{
  ℕ, zero, suc, ◌+◌, ◌*◌, ◌/◌, ◌%◌, ◌^◌, ◌≤◌, ◌<◌, min, max, bit_and, bit_or, digits,
  bit_and-bitwise, bit_or-bitwise,
}
use mathlib.Core.Path.{◌≡◌, refl, ap}
use native.Mathlib.Nat.{pow-suc}
use native.Mathlib.Omega.{arith}

pub pow-pos : (k : ℕ) → 0 < 2 ^ k
pow-pos zero = omega arith
pow-pos (suc k) = omega (arith, pow-suc 2 k, pow-pos k)

-- The remainder by `2 * n`, from the lowest binary digit.
mod-double : (a n : ℕ) → 0 < n → a % (n * 2) ≡ a / 2 % n * 2 + a % 2
mod-double a n h = grind arith

-- Fuel that covers the first number is enough: what is above it is never used.
enough_fuel :
    (rest : ℕ → ℕ) (op : ℕ → ℕ → ℕ) (x y fuel₁ fuel₂ : ℕ)
    → (x ≤ fuel₁) × (x ≤ fuel₂)
    → digits rest op fuel₁ x y ≡ digits rest op fuel₂ x y
enough_fuel rest op zero y zero zero h = refl
enough_fuel rest op zero y zero (suc k₂) h = refl
enough_fuel rest op zero y (suc k₁) zero h = refl
enough_fuel rest op zero y (suc k₁) (suc k₂) h = refl
enough_fuel rest op (suc x) y zero k₂ h = absurd (omega arith)
enough_fuel rest op (suc x) y (suc k₁) zero h = absurd (omega arith)
enough_fuel rest op (suc x) y (suc k₁) (suc k₂) h =
    let half = enough_fuel rest op (suc x / 2) (y / 2) k₁ k₂ (omega arith, omega arith) in
    ap (λ high. high * 2 + op (suc x % 2) (y % 2)) half

-- `|`, one binary digit at a time.
pub bit_or_step : (x y : ℕ) → bit_or x y ≡ bit_or (x / 2) (y / 2) * 2 + max (x % 2) (y % 2)
bit_or_step zero y = let low = bit_or-bitwise 0 y in omega (arith, low, bit_or-bitwise 0 (y / 2))
bit_or_step (suc x) y =
    let whole = bit_or-bitwise (suc x) y in
    let half = bit_or-bitwise (suc x / 2) (y / 2) in
    let same =
      enough_fuel (λ z. z) max (suc x / 2) (y / 2) x (suc x / 2) (omega arith, omega arith) in
    omega (arith, whole, half, same)

bit_or-zero_upto : (bound x : ℕ) → x ≤ bound → bit_or x 0 ≡ x
bit_or-zero_upto zero zero h = refl
bit_or-zero_upto (suc k) zero h = refl
bit_or-zero_upto zero (suc x) h = absurd (omega arith)
bit_or-zero_upto (suc k) (suc x) h =
    let half = bit_or-zero_upto k (suc x / 2) (omega arith) in
    omega (arith, bit_or_step (suc x) 0, half)

pub bit_or-zero : (x : ℕ) → bit_or x 0 ≡ x
bit_or-zero x = bit_or-zero_upto x x (omega arith)

pub zero-bit_or : (b : ℕ) → bit_or 0 b ≡ b
zero-bit_or b = bit_or-bitwise 0 b

-- High digits over low ones, in either order.
pub bit_or-high_low : (k x y a : ℕ) → a ≡ x * 2 ^ k → y < 2 ^ k → bit_or a y ≡ a + y
bit_or-high_low zero x y a e h = bit_or-eq_of_zero a y (omega arith)
  where
    bit_or-eq_of_zero : (a y : ℕ) → y ≡ 0 → bit_or a y ≡ a + y
    bit_or-eq_of_zero a y e = rw e (omega (arith, bit_or-zero a))
bit_or-high_low (suc k) x y a e h =
    let twice : x * 2 ^ suc k ≡ 2 * (x * 2 ^ k) = omega (arith, ap (λ t. x * t) (pow-suc 2 k)) in
    omega (
      arith,
      bit_or_step a y,
      bit_or-high_low k x (y / 2) (a / 2) (omega arith) (omega (arith, pow-suc 2 k)),
    )

pub bit_or-low_high : (k x y a : ℕ) → a ≡ x * 2 ^ k → y < 2 ^ k → bit_or y a ≡ a + y
bit_or-low_high zero x y a e h = bit_or-eq_of_zero a y (omega arith)
  where
    bit_or-eq_of_zero : (a y : ℕ) → y ≡ 0 → bit_or y a ≡ a + y
    bit_or-eq_of_zero a y e = rw e (omega (arith, zero-bit_or a))
bit_or-low_high (suc k) x y a e h =
    let twice : x * 2 ^ suc k ≡ 2 * (x * 2 ^ k) = omega (arith, ap (λ t. x * t) (pow-suc 2 k)) in
    omega (
      arith,
      bit_or_step y a,
      bit_or-low_high k x (y / 2) (a / 2) (omega arith) (omega (arith, pow-suc 2 k)),
    )

-- `&`, one binary digit at a time.
pub bit_and_step : (x y : ℕ) → bit_and x y ≡ bit_and (x / 2) (y / 2) * 2 + min (x % 2) (y % 2)
bit_and_step zero y = let low = bit_and-bitwise 0 y in omega (arith, low, bit_and-bitwise 0 (y / 2))
bit_and_step (suc x) y =
    let whole = bit_and-bitwise (suc x) y in
    let half = bit_and-bitwise (suc x / 2) (y / 2) in
    let same =
      enough_fuel (λ _. zero) min (suc x / 2) (y / 2) x (suc x / 2) (omega arith, omega arith) in
    omega (arith, whole, half, same)

bit_and-zero_upto : (bound x : ℕ) → x ≤ bound → bit_and x 0 ≡ 0
bit_and-zero_upto zero zero h = refl
bit_and-zero_upto (suc k) zero h = refl
bit_and-zero_upto zero (suc x) h = absurd (omega arith)
bit_and-zero_upto (suc k) (suc x) h =
    let half = bit_and-zero_upto k (suc x / 2) (omega arith) in
    omega (arith, bit_and_step (suc x) 0, half)

pub bit_and-zero : (x : ℕ) → bit_and x 0 ≡ 0
bit_and-zero x = bit_and-zero_upto x x (omega arith)

-- `x & ((1 << k) - 1)`; the mask is given with an equation.
pub bit_and-ones : (k a m : ℕ) → m + 1 ≡ 2 ^ k → bit_and a m ≡ a % 2 ^ k
bit_and-ones zero a m e = bit_and-none a m (omega arith)
  where
    bit_and-none : (a m : ℕ) → m ≡ 0 → bit_and a m ≡ a % 1
    bit_and-none a m e = rw e (omega (arith, bit_and-zero a))
bit_and-ones (suc k) a m e = omega (
  arith,
  bit_and_step a m,
  pow-pos k,
  ap (λ t. a % t) (pow-suc 2 k),
  mod-double a (2 ^ k) (pow-pos k),
  bit_and-ones k (a / 2) (m / 2) (omega (arith, pow-suc 2 k, pow-pos k)),
)
