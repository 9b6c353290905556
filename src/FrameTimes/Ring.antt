-- ===== src/FrameTimes/Ring.antt =====
-- The ring of frame times against the history of the times that were registered.
use native.Mathlib.Decide.{dec_lt}
use mi_ster_cast.Prelude.{
  ℕ, zero, suc, ◌+◌, ◌-◌, ◌/◌, ◌%◌, ◌≤◌, ◌<◌, min, ◌≡◌, refl, sym, ap, ◌∙◌, Bool, true, false, ◌||◌,
  List, [], ◌∷◌, length, get_or, set, take, arith, ltb, ◌==◌, if◌then◌else◌, length-set,
  length-take, ◌⊎◌, ◌⊎◌,
}
use mi_ster_cast.FrameTimes.{
  max_regs, FrameTimes, no_times, accumulate, distance, max_diff, register,
}
use mi_ster_cast.FrameTimes.Window.{
  observe, sum, average, spread, total, accumulate-total, get_or-set_at, get_or-set_ne,
  total-set_above, total-set_below, sum-take_short, sum-take-suc, spread-le_if, distance-le_spread,
  gap, max_diff-le_if, gap-le_max_diff,
}

get_or-take : (n i : ℕ) (h : List ℕ) → i < n → get_or (take n h) i 0 ≡ get_or h i 0
get_or-take zero i h p = absurd (omega arith)
get_or-take (suc n) i [] p = refl
get_or-take (suc n) zero (x ∷ h) p = refl
get_or-take (suc n) (suc i) (x ∷ h) p = get_or-take n i h (omega arith)

-- The place of entry `i` of the history.
abbrev place : ℕ → ℕ → ℕ
place index i = (index + 15 - i) % max_regs

place-next :
    (index i : ℕ)
    → index < max_regs
    → i < 15
    → place ((index + 1) % max_regs) (suc i) ≡ place index i
place-next index i l h = omega arith

-- A ring, of which the first `count` entries of `h` can be read.
record Reads (slots : List ℕ) (index count : ℕ) (h : List ℕ) : Type 0 where
  bounded : index < max_regs
  full_or : (count ≡ max_regs) ⊎ ((count < max_regs) × (index ≡ count))
  newest : (i : ℕ) → i < count → get_or slots (place index i) 0 ≡ get_or h i 0

module _ (slots : List ℕ) (index count : ℕ) (h : List ℕ) (reads : Reads slots index count h)
    (size : length (take max_regs h) ≡ count) (oldest : ℕ)
    (start : oldest ≡ (if count == max_regs then index else 0)) where
  slot-read :
      (k : ℕ)
      → k < count
      → get_or slots ((oldest + k) % max_regs) 0 ≡ get_or (take max_regs h) (count - 1 - k) 0
  slot-read k l =
      let at : (oldest + k) % max_regs ≡ place index (count - 1 - k) =
        ground (arith, reads.full_or, reads.bounded) in
      rw at (
        reads.newest (count - 1 - k) (omega arith)
        ∙ sym (get_or-take max_regs (count - 1 - k) h (ground (arith, reads.full_or))))

  gap-read :
      (k : ℕ)
      → suc k < count
      → gap slots oldest k
        ≡ distance
            (get_or (take max_regs h) (count - 1 - suc k) 0)
            (get_or (take max_regs h) (count - 1 - k) 0)
  unfolding gap
  gap-read k l = rw (slot-read (suc k) l, slot-read k (omega arith)) refl

  -- The loop computes the spread of the window.
  max_diff-spread : max_diff slots oldest (count - 1) ≡ spread (take max_regs h)
  max_diff-spread = omega (arith, upper, lower)
    where
      upper : max_diff slots oldest (count - 1) ≤ spread (take max_regs h)
      upper = max_diff-le_if slots oldest (count - 1) (spread (take max_regs h)) λ k l.
          (let before : suc (count - 1 - suc k) ≡ count - 1 - k = omega arith in
            let wide =
              distance-le_spread (take max_regs h) (count - 1 - suc k) (omega (arith, size)) in
            omega (
              arith,
              gap-read k (omega arith),
              wide,
              ap
                  (λ j.
                    distance (get_or (take max_regs h) (count - 1 - suc k) 0)
                      (get_or (take max_regs h) j 0))
                  before,
            ))

      lower : spread (take max_regs h) ≤ max_diff slots oldest (count - 1)
      lower = spread-le_if (take max_regs h) (max_diff slots oldest (count - 1)) λ i l.
          (let k = count - 1 - suc i in
            let this : count - 1 - suc k ≡ i = omega (arith, size) in
            let next : count - 1 - k ≡ suc i = omega (arith, size) in
            let read = rw (this, next) at (gap-read k (omega (arith, size))) in
            omega
              (arith, size, read, gap-le_max_diff slots oldest (count - 1) k (omega (arith, size))))

-- The state of the ring after the times of `h`.
pub record Holds (f : FrameTimes) (h : List ℕ) : Type 0 where
  pub size : length f.slots ≡ max_regs
  pub index : f.index ≡ length h % max_regs
  pub count : f.count ≡ min max_regs (length h)
  pub newest : (i : ℕ) → i < f.count → get_or f.slots (place f.index i) 0 ≡ get_or h i 0
  pub summed : total f.count f.slots ≡ sum (take max_regs h)
  pub avg : f.avg ≡ average (take max_regs h)
  pub dm : f.dm ≡ spread (take max_regs h)

abbrev next_count : ℕ → ℕ
next_count count = if ltb count max_regs then count + 1 else count

next_count-short : (count : ℕ) → count < max_regs → next_count count ≡ suc count
next_count-short count h = ground arith

next_count-full : (count : ℕ) → max_regs ≤ count → next_count count ≡ count
next_count-full count h = ground arith

module _ (f : FrameTimes) (h : List ℕ) (holds : Holds f h) (t : ℕ) where
  next_newest :
      (i : ℕ)
      → i < next_count f.count
      → get_or (set f.slots f.index t) (place ((f.index + 1) % max_regs) i) 0 ≡ get_or (t ∷ h) i 0
  next_newest zero l =
      get_or-set_at f.slots f.index (place ((f.index + 1) % max_regs) 0) t
        (omega (arith, holds.index)) (omega (arith, holds.index, holds.size))
  next_newest (suc i) l =
      let small : i < 15 = ground (arith, holds.count) in
      let here : f.index < max_regs = omega (arith, holds.index) in
      rw (place-next f.index i here small) (
        get_or-set_ne f.slots f.index (place f.index i) t (omega arith)
        ∙ holds.newest i (ground (arith, holds.count)))

  next_summed : total (next_count f.count) (set f.slots f.index t) ≡ sum (take max_regs (t ∷ h))
  unfolding total sum
  next_summed = elim (dec_lt f.count max_regs) [
    | yes short ↦ rw (next_count-short f.count short) (sum_short short)
    | no full ↦ rw (next_count-full f.count (omega arith)) (sum_full (omega (arith, holds.count)))
  ]
    where
      sum_short :
          f.count < max_regs
          → total (suc f.count) (set f.slots f.index t) ≡ sum (take max_regs (t ∷ h))
      sum_short short =
          let at : f.index ≡ f.count = omega (arith, holds.index, holds.count) in
          omega (
            arith,
            holds.summed,
            holds.count,
            total-set_above f.count f.slots f.index t (omega arith),
            get_or-set_at f.slots f.index f.count t at (omega (arith, holds.size)),
            sum-take_short 15 h (omega (arith, holds.count)),
            sum-take_short 16 h (omega (arith, holds.count)),
          )

      sum_full :
          f.count ≡ max_regs → total f.count (set f.slots f.index t) ≡ sum (take max_regs (t ∷ h))
      sum_full full =
          let at : place f.index 15 ≡ f.index = omega (arith, holds.index) in
          let out = rw at at (holds.newest 15 (omega arith)) in
          omega (
            arith,
            holds.index,
            holds.summed,
            total-set_below f.count f.slots f.index t (omega (arith, holds.index))
                (omega (arith, holds.index, holds.size)),
            sum-take-suc 15 h,
            out,
          )

  next_size : length (take max_regs (t ∷ h)) ≡ next_count f.count
  next_size = ground (arith, length-take max_regs (t ∷ h), holds.count)

  next-Reads : Reads (set f.slots f.index t) ((f.index + 1) % max_regs) (next_count f.count) (t ∷ h)
  next-Reads = record {
    bounded = omega arith;
    full_or = ground (arith, holds.count, holds.index);
    newest = next_newest;
  }

  next_average :
      accumulate (next_count f.count) (set f.slots f.index t) / next_count f.count
      ≡ average (take max_regs (t ∷ h))
  unfolding average
  next_average =
      rw (accumulate-total (next_count f.count) (set f.slots f.index t), next_summed, next_size)
        refl

-- One call of the function against one entry of the history.
pub register-Holds :
    (over : ℕ → Bool) (t : ℕ) (f : FrameTimes) (h : List ℕ)
    → Holds f h
    → Holds (register over t f) (observe over t h)
unfolding register observe
register-Holds over t f h holds = split (t == 0 || over t)
  where
    split :
        (b : Bool)
        → Holds
            (if b then f else record {
              slots = set f.slots f.index t;
              index = (f.index + 1) % max_regs;
              count = next_count f.count;
              avg = accumulate (next_count f.count) (set f.slots f.index t) / next_count f.count;
              dm =
                  max_diff
                    (set f.slots f.index t)
                    (if next_count f.count == max_regs then (f.index + 1) % max_regs else 0)
                    (next_count f.count - 1);
            })
            (if b then h else t ∷ h)
    split true = holds
    split false = record {
      size = length-set f.slots f.index t ∙ holds.size;
      index = omega (arith, holds.index);
      count = ground (arith, holds.count);
      newest = next_newest f h holds t;
      summed = next_summed f h holds t;
      avg = next_average f h holds t;
      dm =
          max_diff-spread (set f.slots f.index t) ((f.index + 1) % max_regs) (next_count f.count)
            (t ∷ h) (next-Reads f h holds t) (next_size f h holds t)
            (if next_count f.count == max_regs then (f.index + 1) % max_regs else 0) refl;
    }

-- The calls of a stream in their order, each with the test of the frame period at its time.
unfoldable pub registers : List ((ℕ → Bool) × ℕ) → FrameTimes → FrameTimes
registers [] f = f
registers ((over, t) ∷ ts) f = registers ts (register over t f)

pub observed : List ((ℕ → Bool) × ℕ) → List ℕ → List ℕ
observed [] h = h
observed ((over, t) ∷ ts) h = observed ts (observe over t h)

no_times-Holds : Holds no_times []
unfolding total sum average spread
no_times-Holds = record {
  size = refl;
  index = refl;
  count = refl;
  newest = λ i l. absurd (omega arith);
  summed = refl;
  avg = refl;
  dm = refl;
}

registers-Holds :
    (ts : List ((ℕ → Bool) × ℕ)) (f : FrameTimes) (h : List ℕ)
    → Holds f h
    → Holds (registers ts f) (observed ts h)
unfolding registers observed
registers-Holds [] f h holds = holds
registers-Holds ((over, t) ∷ ts) f h holds =
    registers-Holds ts (register over t f) (observe over t h) (register-Holds over t f h holds)

-- Whatever frame times a new renderer registers: afterwards its ring refines the history of the
-- times that were neither 0 nor over the frame period of their moment. The ring holds the last
-- sixteen of them, the average is their sum (as a 64-bit word) divided by their number, and the
-- deviation is the largest distance of two that follow each other.
pub registers_refine : (ts : List ((ℕ → Bool) × ℕ)) → Holds (registers ts no_times) (observed ts [])
registers_refine ts = registers-Holds ts no_times [] no_times-Holds
