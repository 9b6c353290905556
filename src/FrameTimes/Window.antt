-- ===== src/FrameTimes/Window.antt =====
-- The history of the registered frame times, newest first, and the sums and maxima over a list
-- and over the slots of the ring.
use mi_ster_cast.Prelude.{
  ℕ, zero, suc, ◌+◌, ◌-◌, ◌/◌, ◌%◌, ◌≤◌, ◌<◌, max, ◌≡◌, ◌≢◌, refl, sym, ap, Bool, ◌||◌, List, [],
  ◌∷◌, length, get_or, set, take, arith, ltb, ◌==◌, if◌then◌else◌,
}
use native.Mathlib.Decide.{dec_lt}
use mi_ster_cast.Prelude.Words.{u64}
use mi_ster_cast.FrameTimes.{max_regs, accumulate, distance, max_diff}

-- The specification: the history, and what is to be known of its last sixteen entries.
unfoldable pub observe : (ℕ → Bool) → ℕ → List ℕ → List ℕ
observe over t h = if t == 0 || over t then h else t ∷ h

unfoldable pub sum : List ℕ → ℕ
sum [] = 0
sum (x ∷ xs) = x + sum xs

unfoldable pub average : List ℕ → ℕ
average w = u64 (sum w) / length w

-- The largest distance of neighbours.
unfoldable pub spread : List ℕ → ℕ
spread [] = 0
spread (x ∷ []) = 0
spread (x ∷ (y ∷ r)) = max (distance x y) (spread (y ∷ r))

-- The sum of the first `n` slots, without a wrap.
unfoldable pub total : ℕ → List ℕ → ℕ
total zero xs = 0
total (suc n) xs = total n xs + get_or xs n 0

pub accumulate-total : (n : ℕ) (xs : List ℕ) → accumulate n xs ≡ u64 (total n xs)
unfolding accumulate total
accumulate-total zero xs = refl
accumulate-total (suc n) xs = omega (arith, accumulate-total n xs)

get_or-set_self : (xs : List ℕ) (i v : ℕ) → i < length xs → get_or (set xs i v) i 0 ≡ v
get_or-set_self [] i v h = absurd (omega arith)
get_or-set_self (x ∷ xs) zero v h = refl
get_or-set_self (x ∷ xs) (suc i) v h = get_or-set_self xs i v (omega arith)

pub get_or-set_at : (xs : List ℕ) (i j v : ℕ) → i ≡ j → i < length xs → get_or (set xs i v) j 0 ≡ v
get_or-set_at xs i j v e h = rw (sym e) (get_or-set_self xs i v h)

pub get_or-set_ne : (xs : List ℕ) (i j v : ℕ) → i ≢ j → get_or (set xs i v) j 0 ≡ get_or xs j 0
get_or-set_ne [] i j v h = refl
get_or-set_ne (x ∷ xs) zero zero v h = absurd (h refl)
get_or-set_ne (x ∷ xs) zero (suc j) v h = refl
get_or-set_ne (x ∷ xs) (suc i) zero v h = refl
get_or-set_ne (x ∷ xs) (suc i) (suc j) v h = get_or-set_ne xs i j v (λ e. h (ap suc e))

pub total-set_above : (n : ℕ) (xs : List ℕ) (i v : ℕ) → n ≤ i → total n (set xs i v) ≡ total n xs
unfolding total
total-set_above zero xs i v h = refl
total-set_above (suc n) xs i v h =
    omega (arith, total-set_above n xs i v (omega arith), get_or-set_ne xs i n v (omega arith))

pub total-set_below :
    (n : ℕ) (xs : List ℕ) (i v : ℕ)
    → i < n
    → i < length xs
    → total n (set xs i v) + get_or xs i 0 ≡ total n xs + v
unfolding total
total-set_below zero xs i v h l = absurd (omega arith)
total-set_below (suc n) xs i v h l = elim (dec_lt i n) [
  | yes earlier ↦
      omega (arith, total-set_below n xs i v earlier l, get_or-set_ne xs i n v (omega arith))
  | no last ↦
      let here : i ≡ n = omega arith in
      omega (
        arith,
        total-set_above n xs i v (omega arith),
        get_or-set_at xs i n v here l,
        ap (λ k. get_or xs k 0) here,
      )
]

-- What the window's sum gains and loses with a new entry.
pub sum-take_short : (n : ℕ) (h : List ℕ) → length h ≤ n → sum (take n h) ≡ sum h
unfolding sum
sum-take_short zero [] p = refl
sum-take_short zero (x ∷ h) p = absurd (omega arith)
sum-take_short (suc n) [] p = refl
sum-take_short (suc n) (x ∷ h) p = omega (arith, sum-take_short n h (omega arith))

pub sum-take-suc : (n : ℕ) (h : List ℕ) → sum (take (suc n) h) ≡ sum (take n h) + get_or h n 0
unfolding sum
sum-take-suc zero [] = refl
sum-take-suc zero (x ∷ h) = omega arith
sum-take-suc (suc n) [] = refl
sum-take-suc (suc n) (x ∷ h) = omega (arith, sum-take-suc n h)

-- Bounds of the two maxima.
pub spread-le_if :
    (w : List ℕ) (b : ℕ)
    → ((i : ℕ) → suc i < length w → distance (get_or w i 0) (get_or w (suc i) 0) ≤ b)
    → spread w ≤ b
unfolding spread
spread-le_if [] b h = omega arith
spread-le_if (x ∷ []) b h = omega arith
spread-le_if (x ∷ (y ∷ r)) b h =
    let first = h 0 (omega arith) in
    let rest = spread-le_if (y ∷ r) b (λ i l. h (suc i) (omega arith)) in grind arith

pub distance-le_spread :
    (w : List ℕ) (i : ℕ)
    → suc i < length w
    → distance (get_or w i 0) (get_or w (suc i) 0) ≤ spread w
unfolding spread
distance-le_spread [] i h = absurd (omega arith)
distance-le_spread (x ∷ []) i h = absurd (omega arith)
distance-le_spread (x ∷ (y ∷ r)) zero h = omega arith
distance-le_spread (x ∷ (y ∷ r)) (suc i) h =
    let rest = distance-le_spread (y ∷ r) i (omega arith) in omega (arith, rest)

larger-max : (a b : ℕ) → (if ltb a b then b else a) ≡ max a b
larger-max a b = ground arith

-- The distance that round k + 1 of the loop looks at.
unfoldable pub gap : List ℕ → ℕ → ℕ → ℕ
gap slots oldest k =
    distance (get_or slots ((oldest + suc k) % max_regs) 0)
      (get_or slots ((oldest + k) % max_regs) 0)

max_diff-suc :
    (slots : List ℕ) (oldest n : ℕ)
    → max_diff slots oldest (suc n) ≡ max (max_diff slots oldest n) (gap slots oldest n)
unfolding max_diff gap
max_diff-suc slots oldest n =
    let before : oldest + suc n - 1 ≡ oldest + n = omega arith in
    rw before (larger-max (max_diff slots oldest n) (gap slots oldest n))

pub max_diff-le_if :
    (slots : List ℕ) (oldest n b : ℕ)
    → ((k : ℕ) → k < n → gap slots oldest k ≤ b)
    → max_diff slots oldest n ≤ b
unfolding max_diff
max_diff-le_if slots oldest zero b h = omega arith
max_diff-le_if slots oldest (suc n) b h = omega (
  arith,
  max_diff-suc slots oldest n,
  max_diff-le_if slots oldest n b (λ k l. h k (omega arith)),
  h n (omega arith),
)

pub gap-le_max_diff :
    (slots : List ℕ) (oldest n k : ℕ) → k < n → gap slots oldest k ≤ max_diff slots oldest n
gap-le_max_diff slots oldest zero k h = absurd (omega arith)
gap-le_max_diff slots oldest (suc n) k h = elim (dec_lt k n) [
  | yes before ↦ omega (arith, max_diff-suc slots oldest n, gap-le_max_diff slots oldest n k before)
  | no last ↦
      let here : k ≡ n = omega arith in
      omega (arith, max_diff-suc slots oldest n, ap (gap slots oldest) here)
]
