-- ===== src/VideoCapture/Tests.antt =====
-- The theorems at a small display and at a window.
use mi_ster_cast.Prelude.{
  bit, Bool, ◌==◌, if◌then◌else◌, false, ℕ, ◌+◌, ◌≤◌, ◌≡◌, refl, true, false, some, List, [], ◌∷◌,
  map, arith,
}
use mi_ster_cast.Prelude.Int.{ℤ, pos, negsuc, ◌+ℤ◌, ◌-ℤ◌, ltb_ℤ}
use mi_ster_cast.Prelude.Steps.{Ends}
use mi_ster_cast.VideoCapture.Drawing.{Point, RectF, drawing}
use mi_ster_cast.VideoCapture.Drawing.Lands.{
  Rotates, Corner, corner_of, Places, crop_corner, lands, drawing-lands,
}
use mi_ster_cast.Crop.{Rect}
use mi_ster_cast.VideoCapture.Device.{cleanup_video_capture}
use mi_ster_cast.VideoCapture.Start.{initialize_video_capture}
use mi_ster_cast.VideoCapture.Start.Accounts.{blank, loses_device, initialize-cleanup}
use mi_ster_cast.VideoCapture.Grab.{VideoState, TickAnswers, initialize_capture}
use mi_ster_cast.VideoCapture.Tick.{take_options, has_source, tick_video_capture, run_ticks}
use mi_ster_cast.VideoCapture.Tick.Keeps.{IsValid}
use mi_ster_cast.VideoCapture.Tick.Shows.{Ticked, HasPitch, tick-Ticked}
use mi_ster_cast.VideoCapture.Tick.Delivers.{delivering}
use mi_ster_cast.VideoCapture.Tick.Recovers.{display_recovers}
use mi_ster_cast.VideoCapture.Tick.Stalls.{quiet, window_stalls}
use mi_ster_cast.VideoCapture.Tick.Runs.{losses, initialize-run_ticks}
use mi_ster_cast.VideoCapture.Wake.{
  Waiter, Signals, arrive, sample, empty, sleep, at_rest, Woken, rest, next,
}
use mi_ster_cast.VideoCapture.Wake.Kept.{no_lost_wakeup}
use mi_ster_cast.VideoCapture.Samples.{
  answers, texture, display, answer, display-IsValid, dark, dark-IsValid, waking, windowed,
  windowed-IsValid, throwing, fresh,
}

-- A start that ends at `ID2D1Factory1::CreateDevice` loses one reference.
initialize-cleanup_example :
    Ends (λ ok d. cleanup_video_capture d ≡ blank 1) (initialize_video_capture 0 answers (blank 0))
initialize-cleanup_example = initialize-cleanup 0 0 answers

answer-HasPitch : HasPitch answer
answer-HasPitch m e = ground arith

waking-HasPitch : HasPitch waking
waking-HasPitch m e = ground arith

tick-Ticked_example :
    Ends (Ticked 0 answer (take_options display)) (tick_video_capture answer display)
tick-Ticked_example = tick-Ticked 0 answer display answer-HasPitch display-IsValid

dark_source : has_source (take_options dark) ≡ false
unfolding take_options
dark_source = refl

display_recovers_example :
    (s₁ s₂ : VideoState) × (tick_video_capture waking dark ≡ some (false, s₁))
    × (tick_video_capture (delivering answer texture) s₁ ≡ some (true, s₂))
display_recovers_example =
    display_recovers 0 waking answer texture dark (omega arith) dark-IsValid refl dark_source refl

windowed_source : has_source (take_options windowed) ≡ false
unfolding take_options
windowed_source = refl

window_stalls_example :
    (s₁ : VideoState) × (tick_video_capture throwing windowed ≡ some (false, s₁))
    × (s₁.device.window_started ≡ false)
    × ((ks : List TickAnswers) → run_ticks (map quiet ks) s₁ ≡ some s₁)
window_stalls_example =
    window_stalls 0 throwing windowed windowed-IsValid (omega arith) windowed_source refl refl

initialize-run_ticks_example :
    (ok : Bool) × (s₁ s' : VideoState) × (lost : ℕ) × (initialize_capture 0 (some 1) answers fresh
      ≡ some (ok, s₁))
    × (run_ticks (answer ∷ waking ∷ []) s₁ ≡ some s')
    × IsValid lost s'
    × (lost ≤ bit (loses_device answers) + losses (answer ∷ waking ∷ []))
initialize-run_ticks_example =
    initialize-run_ticks 0 1 answers fresh refl refl (omega arith) (omega arith) (omega arith)
      (omega arith) (answer ∷ waking ∷ []) (answer-HasPitch, (waking-HasPitch, tt))

-- The worker sleeps, and a frame arrives.
abbrev slept_on : Signals
slept_on = record at_rest { queued = 1; unannounced = 1; waiter = Waiter.asleep 0 }

slept_on-Woken : Woken slept_on
slept_on-Woken =
    next (next (next (next rest (sample _ refl)) (empty _ 0 refl refl)) (sleep _ 0 refl refl))
      (arrive (record at_rest { waiter = Waiter.asleep 0 }))

no_lost_wakeup_example : slept_on.queued ≤ slept_on.unannounced + slept_on.notifying
no_lost_wakeup_example = no_lost_wakeup slept_on 0 slept_on-Woken (omega arith) refl

-- A rotation by the three angles.
abbrev rotate : ℤ → Point → Point → Point
rotate (negsuc n) c p = (c.0 +ℤ (p.1 -ℤ c.1), c.1 -ℤ (p.0 -ℤ c.0))
rotate (pos n) c p =
    if n == 90
    then (c.0 -ℤ (p.1 -ℤ c.1), c.1 +ℤ (p.0 -ℤ c.0))
    else (c.0 -ℤ (p.0 -ℤ c.0), c.1 -ℤ (p.1 -ℤ c.1))

rotate-Rotates : Rotates rotate
rotate-Rotates = record { left = λ c p. refl; right = λ c p. refl; over = λ c p. refl }

-- The far half of the source goes to the far side of the destination.
abbrev place : RectF → RectF → Point → Point
place source dest p = (
  if ltb_ℤ source.left p.0 then dest.right else dest.left,
  if ltb_ℤ source.top p.1 then dest.bottom else dest.top,
)

not_before : (x : ℤ) → ltb_ℤ x x ≡ false
not_before x = ground arith

place-Places : Places place
place-Places = record { corners = λ source dest wide tall. split source dest wide tall }
  where
    split :
        (source dest : RectF)
        → ltb_ℤ source.left source.right ≡ true
        → ltb_ℤ source.top source.bottom ≡ true
        → (corner : Corner) → place source dest (corner_of source corner) ≡ corner_of dest corner
    split source dest wide tall (true, true) = rw (wide, tall) refl
    split source dest wide tall (true, false) = rw (wide, not_before source.top) refl
    split source dest wide tall (false, true) = rw (not_before source.left, tall) refl
    split source dest wide tall (false, false) =
        rw (not_before source.left, not_before source.top) refl

abbrev window : Rect
window = record { x = pos 10; y = pos 20; width = 240; height = 320 }

-- A monitor that is turned clockwise: the top left corner of the crop is at the bottom left.
drawing-lands_example :
    lands place rotate (drawing 1 window 320 240) (crop_corner window (false, false))
    ≡ (pos 0, pos 480)
drawing-lands_example =
    drawing-lands place place-Places rotate rotate-Rotates 1 window 320 240 (false, false)
      (omega arith) (omega arith)
