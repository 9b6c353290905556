-- ===== src/VideoCapture/Tick/Runs.antt =====
-- Every run of the capture worker.
use mi_ster_cast.Prelude.{
  bit, ℕ, ◌+◌, ◌^◌, ◌≤◌, ◌<◌, ◌≡◌, refl, ap, ◌∙◌, Bool, true, false, Option, none, some, List, [],
  ◌∷◌, arith,
}
use mi_ster_cast.Prelude.Fault.{◌>>=◌}
use mi_ster_cast.Prelude.Steps.{Ends, Ends-result}
use mi_ster_cast.VideoCapture.Device.{Device, no_device}
use mi_ster_cast.VideoCapture.Start.{StartAnswers, initialize_video_capture}
use mi_ster_cast.VideoCapture.Start.Accounts.{loses_device, Started, initialize-Started}
use mi_ster_cast.VideoCapture.Grab.{
  VideoState, TickAnswers, allocate, with_device, initialize_capture,
}
use mi_ster_cast.VideoCapture.Tick.{take_options, tick_video_capture, run_ticks}
use mi_ster_cast.VideoCapture.Tick.Keeps.{IsValid, new-IsScreens}
use mi_ster_cast.VideoCapture.Tick.Shows.{Ticked, HasPitch, tick-Ticked}

-- The restarts of the run in which Direct2D may fail.
abbrev pub losses : List TickAnswers → ℕ
losses [] = 0
losses (k ∷ ks) = bit (loses_device k.restart) + losses ks

abbrev pub AllPitched : List TickAnswers → Type 0
AllPitched [] = Unit
AllPitched (k ∷ ks) = HasPitch k × AllPitched ks

record Stepped (n : ℕ) (k : TickAnswers) (s' : VideoState) : Type 0 where
  lost : ℕ
  no_fewer : n ≤ lost
  no_more : lost ≤ n + bit (loses_device k.restart)
  valid : IsValid lost s'

Ticked-Stepped :
    (n : ℕ) (k : TickAnswers) (s : VideoState) (ok : Bool) (s' : VideoState)
    → Ticked n k s ok s'
    → Stepped n k s'
Ticked-Stepped n k s true s' t = record {
  lost = n;
  no_fewer = omega arith;
  no_more = omega arith;
  valid = t.valid;
}
Ticked-Stepped n k s false s' t = record {
  lost = t.lost;
  no_fewer = t.no_fewer;
  no_more = t.no_more;
  valid = t.valid;
}

-- The worker's loop on a valid state.
pub run_ticks-IsValid :
    (n : ℕ) (ks : List TickAnswers) (s : VideoState)
    → AllPitched ks
    → IsValid n s
    → (s' : VideoState) × (lost : ℕ) × (run_ticks ks s ≡ some s')
      × IsValid lost s'
      × (n ≤ lost)
      × (lost ≤ n + losses ks)
unfolding run_ticks
run_ticks-IsValid n [] s pitch v = (s, n, refl, v, omega arith, omega arith)
run_ticks-IsValid n (k ∷ ks) s pitch v =
    let (ok, s₁, run, t) =
      Ends-result (Ticked n k (take_options s)) (tick_video_capture k s)
        (tick-Ticked n k s pitch.0 v) in
    let step = Ticked-Stepped n k (take_options s) ok s₁ t in
    let (s', lost, rest, valid, low, high) = run_ticks-IsValid step.lost ks s₁ pitch.1 step.valid in
    (
      s',
      lost,
      ap (λ r. r >>= λ (ok, t). run_ticks ks t) run ∙ rest,
      valid,
      omega (arith, step.no_fewer),
      omega (arith, step.no_more),
    )

module _ (output callback : ℕ) (a : StartAnswers) (s : VideoState) (new : s.device ≡ no_device)
    (unallocated : s.captures ≡ none) (wide : 0 < s.output_width)
    (width_u16 : s.output_width < 2 ^ 16) (tall : 0 < s.output_height)
    (height_u16 : s.output_height < 2 ^ 16) where
  with_device-IsValid :
      (r : Option (Bool × Device))
      → Ends (Started 0 s.config.window_handle a) r
      → Ends (λ ok s'. IsValid (bit (loses_device a)) s') (with_device output (some callback) s r)
  unfolding with_device
  with_device-IsValid none p = p
  with_device-IsValid (some (ok, d)) p = record {
    owes = omega (arith, p.owes);
    ready = p.ready;
    screens = allocate none;
    allocated = ap some (ap allocate unallocated);
    kept = new-IsScreens;
    callback = callback;
    given = refl;
    wide = wide;
    width_u16 = width_u16;
    tall = tall;
    height_u16 = height_u16;
  }

  initialize_capture-IsValid :
      Ends
        (λ ok s'. IsValid (bit (loses_device a)) s')
        (initialize_capture output (some callback) a s)
  unfolding initialize_capture
  initialize_capture-IsValid =
      with_device-IsValid (initialize_video_capture s.config.window_handle a s.device)
        (rw new (initialize-Started 0 s.config.window_handle a))

  -- From the loading of the library on: `InitializeVideoCapture` with a callback and an output of a
  -- mode's size, however far it comes, and then the worker's loop, whatever the system answers and
  -- however long it runs. No null pointer is used, nothing is written past a buffer, no frame is
  -- acquired twice, and the state at the end is valid. The references lost are at most one for each
  -- start or restart that finds the device and then fails in Direct2D.
  pub initialize-run_ticks :
      (ks : List TickAnswers)
      → AllPitched ks
      → (ok : Bool) × (s₁ s' : VideoState) × (lost : ℕ) × (initialize_capture output
            (some callback)
            a
            s
          ≡ some (ok, s₁))
        × (run_ticks ks s₁ ≡ some s')
        × IsValid lost s'
        × (lost ≤ bit (loses_device a) + losses ks)
  initialize-run_ticks ks pitch =
      let (ok, s₁, run, v) =
        Ends-result (λ ok s'. IsValid (bit (loses_device a)) s')
          (initialize_capture output (some callback) a s) initialize_capture-IsValid in
      let (s', lost, rest, valid, low, high) =
        run_ticks-IsValid (bit (loses_device a)) ks s₁ pitch v in
      (ok, s₁, s', lost, run, rest, valid, high)
