-- ===== src/Frame.antt =====
-- `renderer_nogpu::nogpu_pack_frame` of renderer_nogpu.h: the rows of a captured BGRA bitmap are
-- repacked into the client's frame buffer in the stream's wire format. A read or a write out of
-- bounds is a fault, the `none` of the result; `size_t` is taken to have 64 bits.
pub mod Rows
pub mod Pack
pub mod Fields
mod Tests
use Prim.Native.Nat.{bit_and, bit_or}
use mi_ster_cast.Prelude.{
  ℕ, zero, suc, ◌+◌, ◌-◌, ◌*◌, ◌/◌, ◌%◌, ◌^◌, min, Bool, true, false, ◌||◌, Option, none, some,
  List, length, get_elem?, ltb, ◌==◌, if◌then◌else◌,
}
use mi_ster_cast.Prelude.Fault.{◌>>=◌}
use mi_ster_cast.Prelude.Words.{u32, u64}
use mi_ster_cast.Modeline.{buffer_size, rgba8888, rgb565, bytes_per_pixel}

-- `Bitmap` of VideoCapture.h; the capture thread stores only sizes that were unsigned.
pub record Bitmap : Type 0 where
  pub width : ℕ
  pub height : ℕ
  pub buffer : List ℕ

-- What the packer reads of the renderer: `m_options.rgbMode`, `m_width`, `m_height`,
-- `m_current_mode.interlace` and `m_field`.
pub record Packer : Type 0 where
  pub rgb_mode : ℕ
  pub width : ℕ
  pub height : ℕ
  pub interlace : Bool
  pub field : ℕ

-- The client's frame buffer, a byte at each address below `buffer_size`.
abbrev pub Memory : Type 0
Memory = ℕ → ℕ

abbrev pub update : Memory → ℕ → ℕ → Memory
update fb a v b = if b == a then v else fb b

abbrev pub store : Memory → ℕ → ℕ → Option Memory
store fb a v = if ltb a buffer_size then some (update fb a v) else none

abbrev pub load : List ℕ → ℕ → Option ℕ
load src s = get_elem? src s

-- `memcpy` of `n` bytes
copy_bytes : ℕ → List ℕ → ℕ → ℕ → Memory → Option Memory
copy_bytes zero src s d fb = some fb
copy_bytes (suc n) src s d fb = do
  v ← load src s
  fb' ← store fb d v
  copy_bytes n src (s + 1) (d + 1) fb'

-- The row loop of RGB888: `n` pixels from `s` to `d`.
copy_888 : ℕ → List ℕ → ℕ → ℕ → Memory → Option Memory
copy_888 zero src s d fb = some fb
copy_888 (suc n) src s d fb = do
  b ← load src s
  fb₁ ← store fb d b
  g ← load src (s + 1)
  fb₂ ← store fb₁ (d + 1) g
  r ← load src (s + 2)
  fb₃ ← store fb₂ (d + 2) r
  copy_888 n src (s + 4) (d + 3) fb₃

-- R in 15:11, G in 10:5, B in 4:0.
pub pixel_565 : ℕ → ℕ → ℕ → ℕ
pixel_565 b g r =
    bit_or (bit_or (bit_and r 0xf8 * 2 ^ 8) (bit_and g 0xfc * 2 ^ 3)) (b / 2 ^ 3) % 2 ^ 16

-- The row loop of RGB565; the store of a uint16_t is two bytes, the low one first.
copy_565 : ℕ → List ℕ → ℕ → ℕ → Memory → Option Memory
copy_565 zero src s d fb = some fb
copy_565 (suc n) src s d fb = do
  r ← load src (s + 2)
  g ← load src (s + 1)
  b ← load src s
  fb₁ ← store fb d (pixel_565 b g r % 256)
  fb₂ ← store fb₁ (d + 1) (pixel_565 b g r / 256)
  copy_565 n src (s + 4) (d + 2) fb₂

-- One row, by the `switch` on the wire format.
pub copy_row : ℕ → ℕ → List ℕ → ℕ → ℕ → Memory → Option Memory
copy_row rgb_mode cols src s d fb =
    if rgb_mode == rgba8888
    then copy_bytes (cols * 4) src s d fb
    else if rgb_mode == rgb565
    then copy_565 cols src s d fb
    else copy_888 cols src s d fb

pub row_step : Packer → ℕ
row_step p = if p.interlace then 2 else 1

-- Field 0 takes the odd rows.
pub row_base : Packer → ℕ
row_base p = if p.interlace then if p.field == 0 then 1 else 0 else 0

-- The captured row that row `y` of the blit shows.
unfoldable pub src_row : Packer → Bitmap → ℕ → ℕ
unfolding row_step row_base
src_row p capture y = min (u32 (u32 (y * row_step p) + row_base p)) (capture.height - 1)

unfoldable pub columns : Packer → Bitmap → ℕ
columns p capture = min p.width capture.width

-- The row loop: `n` rows from row `y` on.
pack_rows : Packer → Bitmap → ℕ → ℕ → Memory → Option Memory
pack_rows p capture zero y fb = some fb
pack_rows p capture (suc n) y fb = do
  fb' ←
      copy_row p.rgb_mode (columns p capture) capture.buffer
        (u64 (src_row p capture y * u64 (capture.width * 4)))
        (u64 (u64 (y * p.width) * bytes_per_pixel p.rgb_mode)) fb
  pack_rows p capture n (y + 1) fb'

pub packed_bytes : Packer → ℕ
packed_bytes p = u64 (u64 (p.width * p.height) * bytes_per_pixel p.rgb_mode)

-- The four early returns.
refused : Packer → Bitmap → Bool
refused p capture =
    packed_bytes p == 0
    || ltb buffer_size (packed_bytes p)
    || capture.width == 0
    || capture.height == 0
    || length capture.buffer == 0
    || ltb (length capture.buffer) (u64 (u64 (capture.width * capture.height) * 4))

-- `nogpu_pack_frame`; `none` as the destination is the null pointer. The result is the Boolean that
-- the method returns and the buffer after it.
pub pack_frame : Packer → Bitmap → Option Memory → Option (Bool × Option Memory)
pack_frame p capture none = some (false, none)
pack_frame p capture (some fb) =
    if refused p capture
    then some (false, some fb)
    else (pack_rows p capture p.height 0 fb >>= λ fb'. some (true, some fb'))
