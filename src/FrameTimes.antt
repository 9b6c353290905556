-- ===== src/FrameTimes.antt =====
-- The frame times of renderer_nogpu.h: the ring `time_frame`, its average and its largest
-- deviation, as `nogpu_register_frametime` keeps them. The test of a time against the frame period
-- is a comparison of doubles on the system's clock, and a parameter.
pub mod Window
pub mod Ring
mod Tests
use mi_ster_cast.Prelude.{
  ℕ, zero, suc, ◌+◌, ◌-◌, ◌/◌, ◌%◌, ◌^◌, Bool, true, false, ◌||◌, List, ltb, ◌==◌, if◌then◌else◌,
  get_or, set, replicate,
}
use mi_ster_cast.Prelude.Words.{u64}

abbrev pub max_regs : ℕ
max_regs = 16

-- `time_frame`, `time_frame_index`, `time_frame_count`, `time_frame_avg`, `time_frame_dm`
pub record FrameTimes : Type 0 where
  pub slots : List ℕ
  pub index : ℕ
  pub count : ℕ
  pub avg : ℕ
  pub dm : ℕ

-- A new renderer.
abbrev pub no_times : FrameTimes
no_times = record { slots = replicate max_regs 0; index = 0; count = 0; avg = 0; dm = 0 }

-- `acum` after `n` rounds of its loop.
pub accumulate : ℕ → List ℕ → ℕ
accumulate zero slots = 0
accumulate (suc n) slots = u64 (accumulate n slots + get_or slots n 0)

pub distance : ℕ → ℕ → ℕ
distance current previous = if ltb previous current then current - previous else previous - current

-- `max_diff` after the rounds k = 1, ..., n of its loop.
pub max_diff : List ℕ → ℕ → ℕ → ℕ
max_diff slots oldest zero = 0
max_diff slots oldest (suc n) =
    let widest = max_diff slots oldest n in
    let diff =
      distance (get_or slots ((oldest + suc n) % max_regs) 0)
        (get_or slots ((oldest + suc n - 1) % max_regs) 0) in
    if ltb widest diff then diff else widest

-- `nogpu_register_frametime`
pub register : (ℕ → Bool) → ℕ → FrameTimes → FrameTimes
register over_period frametime f =
    if frametime == 0 || over_period frametime
    then f
    else (let slots = set f.slots f.index frametime in
        let index = (f.index + 1) % max_regs in
        let count = if ltb f.count max_regs then f.count + 1 else f.count in
        let oldest = if count == max_regs then index else 0 in
        record {
          slots = slots;
          index = index;
          count = count;
          avg = accumulate count slots / count;
          dm = max_diff slots oldest (count - 1);
        })
