-- ===== src/Modeline.antt =====
-- The modelines of renderer_nogpu.h and their validation: `nogpu_modeline`, `BytesPerPixel` and
-- `ValidateModelineFor`, and the limits of the Groovy client's frame buffer.
pub mod Classify
mod Tests
use mi_ster_cast.Prelude.{
  ℕ, ◌+◌, ◌*◌, ◌/◌, ◌%◌, ◌^◌, Bool, true, false, not, ◌&&◌, ◌||◌, ltb, leb, ◌==◌, if◌then◌else◌,
}
use mi_ster_cast.Prelude.Words.{u64}
use mi_ster_cast.Prelude.Int.{pos}
use mi_ster_cast.Prelude.Double.{Double, finite, is_finite, le_zero}

-- `nogpu_modeline`; every field but the clock is a uint16_t.
pub record Modeline : Type 0 where
  pub pclock : Double
  pub hactive : ℕ
  pub hbegin : ℕ
  pub hend : ℕ
  pub htotal : ℕ
  pub vactive : ℕ
  pub vbegin : ℕ
  pub vend : ℕ
  pub vtotal : ℕ
  pub interlace : Bool

-- `ModelineValidation`
pub data Verdict : Type 0 where
  mode_ok malformed over_byte_budget over_crt_envelope : Verdict

-- `BUFFER_SIZE` of groovymister.h
abbrev pub buffer_size : ℕ
buffer_size = 1245312

abbrev pub crt_envelope_width : ℕ
crt_envelope_width = 1024

abbrev pub crt_envelope_height : ℕ
crt_envelope_height = 576

-- The values of `RgbMode` on the wire.
abbrev pub rgb888 : ℕ
rgb888 = 0

abbrev pub rgba8888 : ℕ
rgba8888 = 1

abbrev pub rgb565 : ℕ
rgb565 = 2

unfoldable pub bytes_per_pixel : ℕ → ℕ
bytes_per_pixel rgb_mode = if rgb_mode == rgba8888 then 4 else if rgb_mode == rgb565 then 2 else 3

-- The three well-formedness tests, each one `if` of the code.
unfoldable pub bad_active : Modeline → Bool
bad_active m =
    not (is_finite m.pclock)
    || le_zero m.pclock
    || m.hactive == 0
    || m.vactive == 0
    || (m.interlace && m.vactive % 2 == 1)

unfoldable pub bad_horizontal : Modeline → Bool
bad_horizontal m = ltb m.hbegin m.hactive || ltb m.hend m.hbegin || leb m.htotal m.hend

unfoldable pub bad_vertical : Modeline → Bool
bad_vertical m = ltb m.vbegin m.vactive || ltb m.vend m.vbegin || leb m.vtotal m.vend

-- `bytes`, halved for the fields of an interlaced mode
unfoldable pub frame_bytes : Modeline → ℕ → ℕ
frame_bytes m rgb_mode =
    let bytes = u64 (u64 (m.hactive * m.vactive) * bytes_per_pixel rgb_mode) in
    if m.interlace then bytes / 2 else bytes

unfoldable pub over_envelope : Modeline → Bool
over_envelope m = ltb crt_envelope_width m.hactive || ltb crt_envelope_height m.vactive

-- `ValidateModelineFor`
unfoldable pub validate_modeline_for : Modeline → ℕ → Bool → Verdict
validate_modeline_for m rgb_mode allow_oversize =
    if bad_active m
    then malformed
    else if bad_horizontal m
    then malformed
    else if bad_vertical m
    then malformed
    else if ltb buffer_size (frame_bytes m rgb_mode)
    then over_byte_budget
    else if not allow_oversize && over_envelope m
    then over_crt_envelope
    else mode_ok

-- `selected_modeline` as `Initialize` sets it; its clock is the double nearest to 6.7.
abbrev pub default_mode : Modeline
default_mode = record {
  pclock = finite (pos 7543529375845581) 50;
  hactive = 320;
  hbegin = 336;
  hend = 367;
  htotal = 426;
  vactive = 240;
  vbegin = 244;
  vend = 247;
  vtotal = 262;
  interlace = false;
}
