-- ===== src/Modeline/Tests.antt =====
-- The default modeline of `Initialize`, and modes on the edges of the checks.
use mi_ster_cast.Prelude.{◌≡◌, refl, true, false, arith}
use mi_ster_cast.Prelude.Double.{infinite}
use mi_ster_cast.Modeline.{
  Modeline, malformed, over_byte_budget, over_crt_envelope, rgb888, rgb565, bytes_per_pixel,
  bad_active, bad_horizontal, bad_vertical, frame_bytes, over_envelope, validate_modeline_for,
  default_mode,
}
use mi_ster_cast.Modeline.Classify.{IsU16Mode, Classified, validate_classifies}

-- 1024 x 600 progressive: 1,843,200 bytes at 3 bytes a pixel
abbrev tall_mode : Modeline
tall_mode = record default_mode {
  hactive = 1024;
  hbegin = 1100;
  hend = 1200;
  htotal = 1300;
  vactive = 600;
  vbegin = 604;
  vend = 607;
  vtotal = 650;
}

tall_over_budget : validate_modeline_for tall_mode rgb888 true ≡ over_byte_budget
unfolding validate_modeline_for bad_active bad_horizontal bad_vertical frame_bytes bytes_per_pixel
    over_envelope
tall_over_budget = refl

tall_over_envelope : validate_modeline_for tall_mode rgb565 false ≡ over_crt_envelope
unfolding validate_modeline_for bad_active bad_horizontal bad_vertical frame_bytes bytes_per_pixel
    over_envelope
tall_over_envelope = refl

endless_clock :
    validate_modeline_for (record default_mode { pclock = infinite false }) rgb888 true ≡ malformed
unfolding validate_modeline_for bad_active
endless_clock = refl

default-IsU16Mode : IsU16Mode default_mode
default-IsU16Mode = omega arith

validate_classifies_example :
    Classified default_mode rgb888 false (validate_modeline_for default_mode rgb888 false)
validate_classifies_example = validate_classifies default_mode rgb888 false default-IsU16Mode
