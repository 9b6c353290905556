-- ===== src/AudioTimeline/Reset.antt =====
-- `reset` empties the timeline.
use mi_ster_cast.Prelude.{
  ℕ, zero, suc, ◌+◌, ◌*◌, ◌/◌, ◌^◌, ◌<◌, ◌≤◌, ◌≡◌, refl, sym, ◌∙◌, none, length, get_or, replicate,
  arith, length-replicate, mul_le_mul,
}
use mi_ster_cast.Prelude.Int.{ℤ}
use mi_ster_cast.Prelude.Words.{u32}
use mi_ster_cast.AudioTimeline.{free, Timeline, slot_count, reset}
use mi_ster_cast.AudioTimeline.View.{
  read_slots, occupied-none, count, Held, IsValid, read-none, none-not,
}

slot-replicate : (n k : ℕ) → (get_or (replicate n free) k free).index ≡ none
slot-replicate zero k = refl
slot-replicate (suc n) zero = refl
slot-replicate (suc n) (suc k) = slot-replicate n k

count-replicate : (n : ℕ) → count (replicate n free) ≡ 0
unfolding count
count-replicate zero = refl
count-replicate (suc n) = omega (arith, occupied-none free refl, count-replicate n)

pub free_slots-Held : (n lo hi : ℕ) → 0 < n → n < 2 ^ 32 → Held (replicate n free) 0 lo hi
free_slots-Held n lo hi some_ few = record {
  some_slots = omega (arith, length-replicate n free);
  few = omega (arith, length-replicate n free);
  placed = λ k m l e. absurd (none-not m (sym (slot-replicate n k) ∙ e));
  counted = sym (count-replicate n);
}

slot_count-pos : (rate delay_ms : ℕ) → 0 < slot_count rate delay_ms
unfolding slot_count
slot_count-pos rate delay_ms = omega arith

delay-le_slots :
    (rate delay_ms : ℕ) → delay_ms ≤ 2000 → rate * delay_ms / 1000 ≤ slot_count rate delay_ms
unfolding slot_count
delay-le_slots rate delay_ms short =
    let whole : u32 (delay_ms + 250) ≡ delay_ms + 250 = omega arith in
    let more = mul_le_mul rate delay_ms rate (u32 (delay_ms + 250)) (omega arith) (omega arith) in
    omega (arith, more)

-- A reset with a ring of fewer than 2 ^ 32 slots leaves a valid timeline in which no sample waits,
-- and the ring holds at least the audio of the delay.
pub reset-IsValid :
    (rate delay_ms : ℕ) (now : ℤ) (t : Timeline)
    → slot_count rate delay_ms < 2 ^ 32
    → delay_ms ≤ 2000
    → IsValid (reset rate delay_ms now t)
      × ((m : ℕ) → read_slots (reset rate delay_ms now t).slots m ≡ none)
      × ((reset rate delay_ms now t).delay ≤ length (reset rate delay_ms now t).slots)
unfolding reset
reset-IsValid rate delay_ms now t few short = (
  free_slots-Held (slot_count rate delay_ms) 0 _ (slot_count-pos rate delay_ms) few,
  (λ m.
      read-none (replicate (slot_count rate delay_ms) free) m
        (λ e. none-not m (sym (slot-replicate (slot_count rate delay_ms) _) ∙ e))),
  omega
      (arith, delay-le_slots rate delay_ms short, length-replicate (slot_count rate delay_ms) free),
)
