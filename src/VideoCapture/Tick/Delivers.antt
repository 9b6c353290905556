-- ===== src/VideoCapture/Tick/Delivers.antt =====
-- A tick whose calls succeed answers true.
use mi_ster_cast.Prelude.{
  ℕ, ◌+◌, ◌-◌, ◌^◌, ◌<◌, ◌≡◌, ◌≢◌, refl, ap, ◌∙◌, Bool, true, false, not, ◌&&◌, Option, none, some,
  ◌==◌, if◌then◌else◌, arith,
}
use mi_ster_cast.Prelude.Steps.{
  ◌then_run◌, use_of, attempt, Ends, then_run-Ends, Ends-both, Ends-result,
}
use mi_ster_cast.Crop.{crop}
use mi_ster_cast.Crop.Output.{output_size-set}
use mi_ster_cast.VideoCapture.Device.{Device, ensure_scale_targets}
use mi_ster_cast.VideoCapture.Device.Accounts.{Owes, IsReady, Ensured, ensure-Ensured}
use mi_ster_cast.VideoCapture.Device.Succeeds.{all_targets, ensure-succeeds}
use mi_ster_cast.VideoCapture.Start.{exchange}
use mi_ster_cast.VideoCapture.Picture.{Mapped, Screens, publish_picture}
use mi_ster_cast.VideoCapture.Grab.{
  VideoState, TickAnswers, Acquire, Grab, rebuild, acquire_display, acquire_window,
  take_display_frame, release_frame,
}
use mi_ster_cast.VideoCapture.Tick.{
  read_back, can_preview, with_screens, release_texture, picture_size, crop_options, deliver,
  end_tick, show, take_options, has_source, capture_frame, show_grabbed, tick_source,
  tick_video_capture,
}
use mi_ster_cast.VideoCapture.Tick.Keeps.{IsValid, Idle}
use mi_ster_cast.VideoCapture.Tick.Source.{Grabs, Holding, acquire_display-Grabs}
use mi_ster_cast.VideoCapture.Tick.Shows.{Ticked, take_options-IsValid, tick-Ticked}

-- Answers with which the system gives the display's texture and fails no call on it.
abbrev pub delivering : TickAnswers → Mapped → TickAnswers
delivering k m = record k {
  acquire = Acquire.acquired true;
  targets = all_targets;
  surface = true;
  bitmap = true;
  drawn = true;
  mapped = some m;
}

module _ (k : TickAnswers) (m : Mapped) where
  read_back-succeeds :
      (n width height : ℕ) (d : Device)
      → Owes n d
      → IsReady d
      → d.d3d_device ≡ true
      → d.d3d_context ≡ true
      → d.d2d_context ≡ true
      → width ≢ 0
      → Ends (λ ok d'. ok ≡ true) (read_back width height (delivering k m) d)
  unfolding read_back
  read_back-succeeds n width height d owes ready device context d2d wide =
      then_run-Ends (λ ok d'. Ensured n d ok d' × (ok ≡ true)) (λ ok d'. ok ≡ true)
        (ensure_scale_targets width height all_targets) _ d
        (Ends-both (Ensured n d) (λ ok d'. ok ≡ true)
          (ensure_scale_targets width height all_targets d)
          (ensure-Ensured n width height d owes ready device d2d all_targets wide)
          (ensure-succeeds width height d device d2d))
        drawn (λ d' e. e.1)
    where
      drawn :
          (d' : Device)
          → Ensured n d true d' × (true ≡ true)
          → Ends
              (λ ok d'. ok ≡ true)
              ((attempt true (λ d. record d { refs = d.refs + 1 })
                  then_run use_of (λ d. d.d2d_context)
                  then_run exchange true
                  then_run (λ d. some (true, record d { refs = d.refs - 1 }))
                  then_run use_of (λ d. d.d3d_context)
                  then_run use_of (λ d. d.scale_staging)
                  then_run use_of (λ d. d.scale_target)
                  then_run attempt true (λ d. d))
                d')
      drawn d' (e, done) =
          rw (e.context ∙ context, e.d2d ∙ d2d, (e.complete refl).0, (e.complete refl).2) refl

  deliver-answers :
      (P : Bool → VideoState → Type 0) (width height : ℕ) (active : Option ℕ)
      (captures : Option Screens) (t : VideoState)
      → Ends P (deliver width height active (some m) captures t)
      → Ends (λ ok s. ok ≡ true) (deliver width height active (some m) captures t)
  unfolding deliver
  deliver-answers P width height active none t p = p
  deliver-answers P width height active (some screens) t p =
      split (can_preview t) (publish_picture active m width height t.current.preview screens) p
    where
      split :
          (shown : Bool) (r : Option Screens)
          → Ends P (if shown then with_screens t r else none)
          → Ends (λ ok s. ok ≡ true) (if shown then with_screens t r else none)
      split false r q = q
      split true none q = q
      split true (some after) q = refl

  end_tick-answers :
      (P : Bool → VideoState → Type 0) (width height : ℕ) (s : VideoState)
      (r : Option (Bool × Device))
      → Ends (λ ok d. ok ≡ true) r
      → Ends P (end_tick width height (delivering k m) s r)
      → Ends (λ ok s. ok ≡ true) (end_tick width height (delivering k m) s r)
  unfolding end_tick
  end_tick-answers P width height s none e p = p
  end_tick-answers P width height s (some (false, d)) e p = e
  end_tick-answers P width height s (some (true, d)) e p =
      deliver-answers P width height k.active s.captures (release_texture d s) p

  show-answers :
      (P : Bool → VideoState → Type 0) (n : ℕ) (s : VideoState) (z : ℕ × ℕ) (h : VideoState)
      → Holding n s h
      → Ends P (show (delivering k m) z h)
      → Ends (λ ok s. ok ≡ true) (show (delivering k m) z h)
  unfolding show
  show-answers P n s z h e p =
      let size : picture_size z h ≡ (h.output_width, h.output_height) =
        output_size-set h.output_width h.output_height
          (crop (crop_options h.current) h.config.rotation z.0 z.1) e.valid.wide e.valid.tall in
      let wide : (picture_size z h).0 ≡ h.output_width = ap (λ t. t.0) size in
      end_tick-answers P (picture_size z h).0 (picture_size z h).1 h
        (read_back (picture_size z h).0 (picture_size z h).1 (delivering k m) h.device)
        (read_back-succeeds (n + 1) (picture_size z h).0 (picture_size z h).1 h.device e.valid.owes
          e.valid.ready e.device e.context e.d2d (omega (arith, wide, e.valid.wide)))
        p

  show_grabbed-answers :
      (P : Bool → VideoState → Type 0) (n : ℕ) (s : VideoState) (g : Grab)
      → Grabs (λ s. ⊥) (λ z. Holding n s) g
      → Ends P (show_grabbed (delivering k m) g)
      → Ends (λ ok s. ok ≡ true) (show_grabbed (delivering k m) g)
  unfolding show_grabbed
  show_grabbed-answers P n s none e p = p
  show_grabbed-answers P n s (some (none, h)) e p = absurd e
  show_grabbed-answers P n s (some (some z, h)) e p = show-answers P n s z h e p

  -- A display that is there gives a frame.
  acquire_display-gives :
      (n : ℕ) (s : VideoState)
      → IsValid n s
      → s.device.duplication ≡ true
      → Grabs (λ s. ⊥) (λ z. Holding n s) (acquire_display (delivering k m) s)
  unfolding acquire_display take_display_frame release_frame
  acquire_display-gives n s v there =
      gives (acquire_display (delivering k m) s) goes
        (acquire_display-Grabs n (delivering k m) s v there)
    where
      free : (s.device.duplication && not (release_frame s.device).frame_acquired) ≡ true
      free = ground (arith, v.ready, there)

      taken :
          (b : Bool)
          → b ≡ true
          → Grabs
              (λ s. ⊥)
              (λ z s. Unit {0})
              (if b
                then take_display_frame
                    (delivering k m)
                    (Acquire.acquired true)
                    (record s { device = release_frame s.device })
                else none)
      taken true e = tt
      taken false e = cc e

      goes : Grabs (λ s. ⊥) (λ z s. Unit {0}) (acquire_display (delivering k m) s)
      goes = taken (s.device.duplication && not (release_frame s.device).frame_acquired) free

      gives :
          (g : Grab)
          → Grabs (λ s. ⊥) (λ z s. Unit {0}) g
          → Grabs (Idle n k.restart s.captures) (λ z. Holding n s) g
          → Grabs (λ s. ⊥) (λ z. Holding n s) g
      gives none p q = p
      gives (some (none, h)) p q = p
      gives (some (some z, h)) p q = q

  tick_source-answers :
      (P : Bool → VideoState → Type 0) (n : ℕ) (s : VideoState)
      → IsValid n s
      → s.current.window_handle ≡ 0
      → s.device.duplication ≡ true
      → Ends P (tick_source (delivering k m) s)
      → Ends (λ ok s. ok ≡ true) (tick_source (delivering k m) s)
  unfolding tick_source capture_frame
  tick_source-answers P n s v handle there = outer (has_source s) (ground (arith, handle, there))
    where
      inner :
          (b : Bool)
          → b ≡ true
          → Grabs
              (λ s. ⊥)
              (λ z. Holding n s)
              (if b then acquire_display (delivering k m) s else acquire_window (delivering k m) s)
      inner true e = acquire_display-gives n s v there
      inner false e = cc e

      outer :
          (b : Bool)
          → b ≡ true
          → Ends P (
              if b
              then show_grabbed (delivering k m) (capture_frame (delivering k m) s)
              else rebuild k.restart s)
          → Ends
              (λ ok s. ok ≡ true)
              (if b
                then show_grabbed (delivering k m) (capture_frame (delivering k m) s)
                else rebuild k.restart s)
      outer true e p =
          show_grabbed-answers P n s (capture_frame (delivering k m) s)
            (inner (s.current.window_handle == 0) (ground (arith, handle))) p
      outer false e p = cc e

  -- A valid state with the display's duplication, and no new options.
  pub tick-delivers :
      (n : ℕ) (s : VideoState)
      → m.row_pitch < 2 ^ 32
      → IsValid n s
      → s.current.window_handle ≡ 0
      → s.has_new ≡ false
      → s.device.duplication ≡ true
      → (s' : VideoState) × (tick_video_capture (delivering k m) s ≡ some (true, s'))
  unfolding tick_video_capture take_options
  tick-delivers n s pitch v handle old there =
      let ended = tick-Ticked n (delivering k m) s (λ t e. ground (arith, pitch)) v in
      let answers =
        tick_source-answers (Ticked n (delivering k m) (take_options s)) n (take_options s)
          (take_options-IsValid n s v) (ground (arith, handle, old)) there ended in
      let (ok, s', run, e) =
        Ends-result (λ ok s. ok ≡ true) (tick_video_capture (delivering k m) s) answers in
      (s', run ∙ ap (λ b. some (b, s')) e)
