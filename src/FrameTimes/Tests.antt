-- ===== src/FrameTimes/Tests.antt =====
-- The ring of frame times on concrete times.
use mi_ster_cast.Prelude.{ℕ, Bool, List, [], ◌∷◌, ◌≡◌, refl, ltb}
use mi_ster_cast.FrameTimes.{no_times, register, accumulate, distance, max_diff}
use mi_ster_cast.FrameTimes.Ring.{Holds, registers, observed, registers_refine}

abbrev slow : ℕ → Bool
slow t = ltb 1000 t

-- Eighteen valid times, a zero and one that is too long.
abbrev times : List ((ℕ → Bool) × ℕ)
times =
    (slow, 160)
    ∷ (slow, 170)
    ∷ (slow, 0)
    ∷ (slow, 165)
    ∷ (slow, 166)
    ∷ (slow, 167)
    ∷ (slow, 168)
    ∷ (slow, 150)
    ∷ (slow, 5000)
    ∷ (slow, 151)
    ∷ (slow, 152)
    ∷ (slow, 153)
    ∷ (slow, 154)
    ∷ (slow, 155)
    ∷ (slow, 156)
    ∷ (slow, 157)
    ∷ (slow, 158)
    ∷ (slow, 159)
    ∷ (slow, 200)
    ∷ (slow, 190)
    ∷ []

times_deviation : (registers times no_times).dm ≡ 41
unfolding registers register accumulate max_diff distance
times_deviation = refl

registers_refine_example : Holds (registers times no_times) (observed times [])
registers_refine_example = registers_refine times
