-- ===== src/ReceiverClock/Tests.antt =====
-- The clock over whole numbers, by evaluation.
use mi_ster_cast.Prelude.{◌≡◌, refl}
use mi_ster_cast.Prelude.Int.{pos, ◌+ℤ◌, ◌-ℤ◌, ◌*ℤ◌}
use mi_ster_cast.ReceiverClock.{reset_clock, observe, on_report, settle, due_at}
use mi_ster_cast.ReceiverClock.Samples.{whole, clock}

-- One report of the next field, 16 ms later: its 768 samples and the lead of 960.
one_field : (due_at whole 6 (pos 160000) clock).0 ≡ pos 1728
unfolding due_at settle on_report observe reset_clock ◌+ℤ◌ ◌-ℤ◌ ◌*ℤ◌
one_field = refl
