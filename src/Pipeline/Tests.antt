-- ===== src/Pipeline/Tests.antt =====
-- Two by two pixels from the texture to the wire.
use mi_ster_cast.Prelude.{◌≡◌, refl, true, false, some, arith}
use mi_ster_cast.Modeline.{rgb888, bytes_per_pixel}
use mi_ster_cast.Frame.{Packer, Memory}
use mi_ster_cast.Frame.Pack.{IsBlit}
use mi_ster_cast.VideoCapture.Picture.{Mapped}
use mi_ster_cast.VideoCapture.Grab.{VideoState, TickAnswers}
use mi_ster_cast.VideoCapture.Tick.{tick_video_capture}
use mi_ster_cast.VideoCapture.Tick.Shows.{HasPitch}
use mi_ster_cast.VideoCapture.Tick.Delivers.{delivering, tick-delivers}
use mi_ster_cast.VideoCapture.Samples.{texture, display, answer, display-IsValid}
use mi_ster_cast.Pipeline.Wire.{IsTexture, Wired, tick-pack_frame}

abbrev packer : Packer
packer = record { rgb_mode = rgb888; width = 2; height = 2; interlace = false; field = 0 }

abbrev zeros : Memory
zeros a = 0

abbrev told : TickAnswers
told = delivering answer texture

shown : (s' : VideoState) × (tick_video_capture told display ≡ some (true, s'))
shown = tick-delivers answer texture 0 display (omega arith) display-IsValid refl refl refl

packer-IsBlit : IsBlit packer
unfolding bytes_per_pixel
packer-IsBlit = omega arith

told-IsTexture : (m : Mapped) → told.mapped ≡ some m → IsTexture m
told-IsTexture m e a = let same : texture ≡ m = cc e in rw (← same) (omega arith)

told-HasPitch : HasPitch told
told-HasPitch m e = ground arith

tick-pack_frame_example : Wired packer zeros told display shown.0
tick-pack_frame_example =
    tick-pack_frame 0 packer zeros told display shown.0 packer-IsBlit told-IsTexture display-IsValid
      told-HasPitch shown.1
