-- ===== src/VideoCapture/Tick/Shows.antt =====
-- What a whole tick does: it publishes a picture, or it leaves the bitmaps as they are.
use mi_ster_cast.Prelude.{
  ℕ, ◌+◌, ◌-◌, ◌^◌, ◌<◌, ◌≡◌, ◌≢◌, refl, sym, ◌∙◌, Bool, true, false, Option, none, some, arith,
  if◌then◌else◌,
}
use mi_ster_cast.Prelude.Steps.{◌then_run◌, use_of, attempt, Ends, then_run-Ends}
use mi_ster_cast.Crop.{crop}
use mi_ster_cast.Crop.Output.{output_size-set}
use mi_ster_cast.VideoCapture.Device.{Device, ensure_scale_targets}
use mi_ster_cast.VideoCapture.Device.Accounts.{Owes, IsReady, Ensured, ensure-Ensured}
use mi_ster_cast.VideoCapture.Start.{exchange}
use mi_ster_cast.VideoCapture.Picture.{Mapped, Screens}
use mi_ster_cast.VideoCapture.Picture.Publish.{Published, publish-Published}
use mi_ster_cast.VideoCapture.Grab.{VideoState, TickAnswers, Grab, rebuild}
use mi_ster_cast.VideoCapture.Tick.{
  read_back, is_mapped, release_texture, can_preview, deliver, crop_options, picture_size, end_tick,
  show, take_options, capture_frame, has_source, show_grabbed, tick_source, tick_video_capture,
}
use mi_ster_cast.VideoCapture.Tick.Keeps.{IsValid, Idle, rebuild-Idle}
use mi_ster_cast.VideoCapture.Tick.Source.{
  Grabs, Holding, Idle-of_valid, IsValid-with_device, capture_frame-Grabs,
}

module _ (n width height : ℕ) (k : TickAnswers) where
  -- The local references are gone, and only a mapped texture is a success.
  record ReadBack (ok : Bool) (d : Device) : Type 0 where
    owes : Owes n d
    ready : IsReady d
    mapped : ok ≡ true → is_mapped k.mapped ≡ true

  read_back-ReadBack :
      (d : Device)
      → Owes n d
      → IsReady d
      → d.d3d_device ≡ true
      → d.d3d_context ≡ true
      → d.d2d_context ≡ true
      → width ≢ 0
      → Ends ReadBack (read_back width height k d)
  unfolding read_back
  read_back-ReadBack d owes ready device context d2d wide =
      then_run-Ends (Ensured n d) ReadBack (ensure_scale_targets width height k.targets) _ d
        (ensure-Ensured n width height d owes ready device d2d k.targets wide) drawn
        (λ d' e. record { owes = e.owes; ready = e.ready; mapped = λ f. cc f })
    where
      drawn :
          (d' : Device)
          → Ensured n d true d'
          → Ends ReadBack (
              (attempt k.surface (λ d. record d { refs = d.refs + 1 })
                  then_run use_of (λ d. d.d2d_context)
                  then_run exchange k.bitmap
                  then_run (λ d. some (k.drawn, record d { refs = d.refs - 1 }))
                  then_run use_of (λ d. d.d3d_context)
                  then_run use_of (λ d. d.scale_staging)
                  then_run use_of (λ d. d.scale_target)
                  then_run attempt (is_mapped k.mapped) (λ d. d))
                d')
      drawn d' e = ground (arith, e, e.complete refl, context, d2d)

-- A tick that publishes: the picture has the size of the output, and the rows of the mapped texture.
pub record Shown (n : ℕ) (k : TickAnswers) (s s' : VideoState) : Type 0 where
  pub valid : IsValid n s'
  pub mapped : Mapped
  pub from : k.mapped ≡ some mapped
  pub before : Screens
  pub after : Screens
  pub found : s.captures ≡ some before
  pub left : s'.captures ≡ some after
  pub published :
      Published k.active mapped s.output_width s.output_height s.current.preview before after

-- What a tick answers, and what it leaves.
abbrev pub Ticked : ℕ → TickAnswers → VideoState → Bool → VideoState → Type 0
Ticked n k s true s' = Shown n k s s'
Ticked n k s false s' = Idle n k.restart s.captures s'

-- `RowPitch` is a UINT.
abbrev pub HasPitch : TickAnswers → Type 0
HasPitch k = (m : Mapped) → k.mapped ≡ some m → m.row_pitch < 2 ^ 32

module _ (n : ℕ) (k : TickAnswers) (s : VideoState) (pitch : HasPitch k) where
  release_texture-IsValid :
      (s' : VideoState) (d : Device)
      → IsValid (n + 1) s'
      → Owes (n + 1) d
      → IsReady d
      → IsValid n (release_texture d s')
  unfolding release_texture
  release_texture-IsValid s' d v owes ready =
      IsValid-with_device (n + 1) n s' _ v (ground arith) (ground (arith, ready))

  deliver-Ticked :
      (s' : VideoState) (mapped : Option Mapped)
      → Holding n s s'
      → (t : VideoState) → IsValid n t
      → (t.captures ≡ s'.captures) × (t.current ≡ s.current)
      → is_mapped mapped ≡ true
      → k.mapped ≡ mapped
      → Ends (Ticked n k s) (deliver s.output_width s.output_height k.active mapped s'.captures t)
  unfolding deliver
  deliver-Ticked s' none h t v e f g = cc f
  deliver-Ticked s' (some m) h t v e f g =
      let (after, run, p) =
        publish-Published k.active m s.output_width s.output_height t.current.preview v.screens
          (pitch m g) (omega (arith, h.valid.width_u16, h.output_width))
          (omega (arith, h.valid.height_u16, h.output_height)) v.kept in
      rw (sym e.0 ∙ v.allocated, preview, run)
        (record {
          valid = record {
            owes = v.owes;
            ready = v.ready;
            screens = after;
            allocated = refl;
            kept = p.valid;
            callback = v.callback;
            given = v.given;
            wide = v.wide;
            width_u16 = v.width_u16;
            tall = v.tall;
            height_u16 = v.height_u16;
          };
          mapped = m;
          from = g;
          before = v.screens;
          after = after;
          found = sym h.same ∙ sym e.0 ∙ v.allocated;
          left = refl;
          published = rw (← e.1) p;
        })
    where
      preview : can_preview t ≡ true
      preview = rw v.given

  end_tick-Ticked :
      (s' : VideoState)
      → Holding n s s'
      → (r : Option (Bool × Device)) → Ends (ReadBack (n + 1) s.output_width s.output_height k) r
      → Ends (Ticked n k s) (end_tick s.output_width s.output_height k s' r)
  unfolding end_tick
  end_tick-Ticked s' h none p = p
  end_tick-Ticked s' h (some (false, d)) p =
      Idle-of_valid n k.restart s.captures (release_texture d s')
        (release_texture-IsValid s' d h.valid p.owes p.ready) (unfold release_texture in h.same)
  end_tick-Ticked s' h (some (true, d)) p =
      deliver-Ticked s' k.mapped h (release_texture d s')
        (release_texture-IsValid s' d h.valid p.owes p.ready)
        (unfold release_texture in (refl, h.options)) (p.mapped refl) refl

  show-Ticked : (z : ℕ × ℕ) (s' : VideoState) → Holding n s s' → Ends (Ticked n k s) (show k z s')
  unfolding show
  show-Ticked z s' h =
      let size : picture_size z s' ≡ (s.output_width, s.output_height) =
        output_size-set s'.output_width s'.output_height
          (crop (crop_options s'.current) s'.config.rotation z.0 z.1) h.valid.wide h.valid.tall
        ∙ (λ i. (h.output_width i, h.output_height i)) in
      rw size (
        end_tick-Ticked s' h (read_back s.output_width s.output_height k s'.device) (
          read_back-ReadBack (n + 1) s.output_width s.output_height k s'.device h.valid.owes
            h.valid.ready h.device h.context h.d2d (omega (arith, h.valid.wide, h.output_width))))

  show_grabbed-Ticked :
      (g : Grab)
      → Grabs (Idle n k.restart s.captures) (λ z. Holding n s) g
      → Ends (Ticked n k s) (show_grabbed k g)
  unfolding show_grabbed
  show_grabbed-Ticked none p = p
  show_grabbed-Ticked (some (none, s')) p = p
  show_grabbed-Ticked (some (some z, s')) p = show-Ticked z s' p

  tick_source-Ticked : IsValid n s → Ends (Ticked n k s) (tick_source k s)
  unfolding tick_source
  tick_source-Ticked v = split (has_source s) refl
    where
      idle :
          (r : Option (Bool × VideoState))
          → Ends (λ ok s'. (ok ≡ false) × Idle n k.restart s.captures s') r
          → Ends (Ticked n k s) r
      idle none p = p
      idle (some (true, s')) p = cc (p.0)
      idle (some (false, s')) p = p.1

      split :
          (b : Bool)
          → has_source s ≡ b
          → Ends
              (Ticked n k s)
              (if b then show_grabbed k (capture_frame k s) else rebuild k.restart s)
      split true e = show_grabbed-Ticked (capture_frame k s) (capture_frame-Grabs n k s v e)
      split false e = idle (rebuild k.restart s) (rebuild-Idle n k.restart s v)

pub take_options-IsValid : (n : ℕ) (s : VideoState) → IsValid n s → IsValid n (take_options s)
unfolding take_options
take_options-IsValid n s v = record {
  owes = v.owes;
  ready = v.ready;
  screens = v.screens;
  allocated = v.allocated;
  kept = v.kept;
  callback = v.callback;
  given = v.given;
  wide = v.wide;
  width_u16 = v.width_u16;
  tall = v.tall;
  height_u16 = v.height_u16;
}

-- A tick on a valid state, whatever the system answers to each of its calls: it uses no null
-- pointer, writes inside its buffers, acquires no frame twice, and leaves a valid state. If it
-- answers true, the published bitmap is a new one of the output's size with the rows of the mapped
-- texture, it was neither published nor leased, the preview got the same bitmap, and the other
-- bitmaps are as before. If it answers false, all bitmaps are as before. No reference is lost but
-- for one in a restart whose Direct2D calls fail.
pub tick-Ticked :
    (n : ℕ) (k : TickAnswers) (s : VideoState)
    → HasPitch k
    → IsValid n s
    → Ends (Ticked n k (take_options s)) (tick_video_capture k s)
unfolding tick_video_capture
tick-Ticked n k s pitch v =
    tick_source-Ticked n k (take_options s) pitch (take_options-IsValid n s v)
