-- ===== src/Buffers/Choice.antt =====
-- The buffer that the capture thread chooses.
use mi_ster_cast.Prelude.{ℕ, ◌<◌, ◌≢◌, Option, none, some, arith}
use mi_ster_cast.Buffers.{buffer_count, successor, choose}

pub choose-lt :
    (active : Option ℕ) (n : ℕ) → n < buffer_count → choose active (successor n) < buffer_count
unfolding choose successor
choose-lt none n h = ground arith
choose-lt (some i) n h = ground arith

-- It is neither the published one nor the leased one.
pub choose-fresh :
    (active : Option ℕ) (n : ℕ)
    → n < buffer_count
    → (choose active (successor n) ≢ n) × (active ≢ some (choose active (successor n)))
unfolding choose successor
choose-fresh none n h = (ground arith, λ e. cc e)
choose-fresh (some i) n h = (ground arith, ground arith)
