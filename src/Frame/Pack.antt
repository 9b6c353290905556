-- ===== src/Frame/Pack.antt =====
-- The whole of `nogpu_pack_frame`: it stays inside both buffers and writes the wire image.
use mi_ster_cast.Prelude.{
  ℕ, zero, suc, ◌+◌, ◌*◌, ◌^◌, ◌≤◌, ◌<◌, ◌≡◌, refl, ◌∙◌, ◌⊎◌, inl, true, false, some, length, arith,
  mul_le_mul, mul-pos, cell-lt,
}
use native.Mathlib.Decide.{dec_lt}
use mi_ster_cast.Prelude.Words.{u64}
use mi_ster_cast.Modeline.{buffer_size, bytes_per_pixel}
use mi_ster_cast.Frame.{
  Bitmap, Packer, Memory, copy_row, src_row, columns, pack_rows, packed_bytes, refused, pack_frame,
}
use mi_ster_cast.Frame.Rows.{IsBytes, wire_byte, RowRuns, copy_row-runs}

-- The captured bitmap holds all its pixels, and is small enough for 16-bit sizes.
pub record IsCapture (capture : Bitmap) : Type 0 where
  pub wide : 0 < capture.width
  pub tall : 0 < capture.height
  pub width_u16 : capture.width < 2 ^ 16
  pub height_u16 : capture.height < 2 ^ 16
  pub holds : capture.width * capture.height * 4 ≤ length capture.buffer
  pub bytes : IsBytes capture.buffer

-- The blit is not empty and fits the client's buffer.
pub record IsBlit (p : Packer) : Type 0 where
  pub width_u16 : p.width < 2 ^ 16
  pub height_u16 : p.height < 2 ^ 16
  pub some_bytes : 0 < p.width * p.height * bytes_per_pixel p.rgb_mode
  pub fits : p.width * p.height * bytes_per_pixel p.rgb_mode ≤ buffer_size

-- The address of pixel `x` of row `y` in the blit.
abbrev pub blit_pixel : Packer → ℕ → ℕ → ℕ
blit_pixel p y x = (y * p.width + x) * bytes_per_pixel p.rgb_mode

-- The address of the captured pixel that it shows.
abbrev pub source_pixel : Packer → Bitmap → ℕ → ℕ → ℕ
source_pixel p capture y x = (src_row p capture y * capture.width + x) * 4

-- The first address after the blit's bytes.
abbrev pub blit_end : Packer → ℕ
blit_end p = p.width * p.height * bytes_per_pixel p.rgb_mode

-- The wire image of the rows from `y` up to `y'`, and nothing written outside them.
pub record RowsPacked (p : Packer) (capture : Bitmap) (y y' : ℕ) (fb fb' : Memory) : Type 0 where
  pub image :
      (j x c : ℕ)
      → y ≤ j
      → j < y'
      → x < columns p capture
      → c < bytes_per_pixel p.rgb_mode
      → fb' (blit_pixel p j x + c)
        ≡ wire_byte p.rgb_mode capture.buffer (source_pixel p capture j x) c
  pub untouched :
      (a : ℕ)
      → (a < y * p.width * bytes_per_pixel p.rgb_mode)
        ⊎ (y' * p.width * bytes_per_pixel p.rgb_mode ≤ a)
      → fb' a ≡ fb a

columns-le : (p : Packer) (capture : Bitmap) → columns p capture ≤ p.width
unfolding columns
columns-le p capture = omega arith

-- None of the early returns is taken.
not-refused :
    (p : Packer) (capture : Bitmap) → IsBlit p → IsCapture capture → refused p capture ≡ false
unfolding refused packed_bytes
not-refused p capture b v = ground (
  arith,
  mul_le_mul p.width p.height 65536 65536 (omega (arith, b.width_u16))
      (omega (arith, b.height_u16)),
  mul_le_mul capture.width capture.height 65536 65536 (omega (arith, v.width_u16))
      (omega (arith, v.height_u16)),
  mul-pos capture.width capture.height v.wide v.tall,
)

module _ (p : Packer) (capture : Bitmap) (b : IsBlit p) (v : IsCapture capture) where
  src_row-lt : (y : ℕ) → src_row p capture y < capture.height
  unfolding src_row
  src_row-lt y = omega (arith, v.tall)

  source_inside :
      (y : ℕ)
      → src_row p capture y * (capture.width * 4) + 4 * columns p capture ≤ length capture.buffer
  unfolding columns
  source_inside y =
      let r = src_row p capture y in
      omega (
        arith,
        v.holds,
        src_row-lt y,
        mul_le_mul (r + 1) capture.width capture.height capture.width (omega (arith, src_row-lt y))
            (omega arith),
      )

  -- The last row ends where the blit ends.
  row_end : (y : ℕ) → y < p.height → (y + 1) * p.width * bytes_per_pixel p.rgb_mode ≤ blit_end p
  row_end y h = omega (
    arith,
    mul_le_mul ((y + 1) * p.width) (bytes_per_pixel p.rgb_mode) (p.height * p.width)
        (bytes_per_pixel p.rgb_mode)
        (mul_le_mul (y + 1) p.width p.height p.width (omega arith) (omega arith)) (omega arith),
  )

  columns_in_row :
      bytes_per_pixel p.rgb_mode * columns p capture ≤ p.width * bytes_per_pixel p.rgb_mode
  unfolding columns
  columns_in_row = omega (
    arith,
    mul_le_mul (columns p capture) (bytes_per_pixel p.rgb_mode) p.width (bytes_per_pixel p.rgb_mode)
        (omega arith) (omega arith),
  )

  target_inside :
      (y : ℕ)
      → y < p.height
      → y * p.width * bytes_per_pixel p.rgb_mode + bytes_per_pixel p.rgb_mode * columns p capture
        ≤ buffer_size
  target_inside y h = omega (arith, b.fits, row_end y h, columns_in_row)

  -- No 64-bit address of the row loop wraps.
  source_address :
      (y : ℕ)
      → u64 (src_row p capture y * u64 (capture.width * 4))
        ≡ src_row p capture y * (capture.width * 4)
  source_address y =
      let stride : u64 (capture.width * 4) ≡ capture.width * 4 = omega (arith, v.width_u16) in
      rw stride (
        omega (
          arith,
          mul_le_mul (src_row p capture y) (capture.width * 4) 65536 (65536 * 4)
              (omega (arith, src_row-lt y, v.height_u16)) (omega (arith, v.width_u16)),
        ))

  target_address :
      (y : ℕ)
      → y < p.height
      → u64 (u64 (y * p.width) * bytes_per_pixel p.rgb_mode)
        ≡ y * p.width * bytes_per_pixel p.rgb_mode
  target_address y h =
      let cells : u64 (y * p.width) ≡ y * p.width = omega (
        arith,
        mul_le_mul y p.width 65536 65536 (omega (arith, b.height_u16)) (omega (arith, b.width_u16)),
      ) in
      rw cells (omega (arith, target_inside y h))

  -- One row of the loop.
  row-runs :
      (y : ℕ) (fb : Memory)
      → y < p.height
      → (fb' : Memory) × (copy_row p.rgb_mode
            (columns p capture)
            capture.buffer
            (u64 (src_row p capture y * u64 (capture.width * 4)))
            (u64 (u64 (y * p.width) * bytes_per_pixel p.rgb_mode))
            fb
          ≡ some fb')
        × RowsPacked p capture y (y + 1) fb fb'
  row-runs y fb h = (row.0, rw (source_address y, target_address y h) row.1, packed)
    where
      row :
          RowRuns
            (copy_row p.rgb_mode (columns p capture) capture.buffer)
            (bytes_per_pixel p.rgb_mode)
            (wire_byte p.rgb_mode capture.buffer)
            (columns p capture)
            (src_row p capture y * (capture.width * 4))
            (y * p.width * bytes_per_pixel p.rgb_mode)
            fb
      row =
          copy_row-runs p.rgb_mode capture.buffer v.bytes (columns p capture)
            (src_row p capture y * (capture.width * 4)) (y * p.width * bytes_per_pixel p.rgb_mode)
            fb (source_inside y) (target_inside y h)

      packed : RowsPacked p capture y (y + 1) fb row.0
      packed = record {
        image = λ j x c lo hi hx hc.
            let same : j ≡ y = omega arith in
            let to : (y * p.width + x) * bytes_per_pixel p.rgb_mode + c
                ≡ y * p.width * bytes_per_pixel p.rgb_mode + bytes_per_pixel p.rgb_mode * x + c =
              omega arith in
            let from : (src_row p capture y * capture.width + x) * 4
                ≡ src_row p capture y * (capture.width * 4) + 4 * x =
              omega arith in
            rw (same, to, from) (row.2.written x c hx hc);
        untouched = λ a o. row.2.kept a (ground (arith, columns_in_row));
      }

  RowsPacked-append :
      (y : ℕ) (fb fb₁ fb' : Memory)
      → y < p.height
      → RowsPacked p capture y (y + 1) fb fb₁
      → RowsPacked p capture (y + 1) p.height fb₁ fb'
      → RowsPacked p capture y p.height fb fb'
  RowsPacked-append y fb fb₁ fb' h first rest = record {
    image = λ j x c lo hi hx hc. elim (dec_lt y j) [
      | yes later ↦ rest.image j x c (omega arith) hi hx hc
      | no now ↦
          rest.untouched (blit_pixel p j x + c) (inl (row_before j x c (omega arith) hx hc))
          ∙ first.image j x c lo (omega arith) hx hc
    ];
    untouched = λ a o. ground (arith, rest.untouched a, first.untouched a, row_end y h);
  }
    where
      row_before :
          (j x c : ℕ)
          → j < y + 1
          → x < columns p capture
          → c < bytes_per_pixel p.rgb_mode
          → blit_pixel p j x + c < (y + 1) * p.width * bytes_per_pixel p.rgb_mode
      row_before j x c hj hx hc =
          cell-lt (j * p.width + x) c (bytes_per_pixel p.rgb_mode) ((y + 1) * p.width)
            (cell-lt j x p.width (y + 1) hj (omega (arith, columns-le p capture))) hc

  -- The loop from row `y` to the last row.
  pack_rows-runs :
      (n y : ℕ) (fb : Memory)
      → y + n ≡ p.height
      → (fb' : Memory) × (pack_rows p capture n y fb ≡ some fb')
        × RowsPacked p capture y p.height fb fb'
  unfolding pack_rows
  pack_rows-runs zero y fb e =
      (fb, refl, record { image = λ j x c lo hi. absurd (omega arith); untouched = λ a o. refl })
  pack_rows-runs (suc n) y fb e =
      let (fb₁, run₁, first) = row-runs y fb (omega arith) in
      let (fb', run', rest) = pack_rows-runs n (y + 1) fb₁ (omega arith) in
      (fb', rw run₁ run', RowsPacked-append y fb fb₁ fb' (omega arith) first rest)

-- A blit that fits the client's buffer, from a bitmap that holds its pixels, is packed without a
-- fault and without an early return: afterwards every pixel of every row that both sides have is
-- the captured pixel in the stream's wire format, and no byte past the blit's own bytes changed.
pub pack_frame-image :
    (p : Packer) (capture : Bitmap) (fb : Memory)
    → IsBlit p
    → IsCapture capture
    → (fb' : Memory) × (pack_frame p capture (some fb) ≡ some (true, some fb'))
      × RowsPacked p capture 0 p.height fb fb'
unfolding pack_frame
pack_frame-image p capture fb b v =
    let (fb', run, packed) = pack_rows-runs p capture b v p.height 0 fb (omega arith) in
    (fb', rw (accepted, run), packed)
  where
    accepted : refused p capture ≡ false
    accepted = not-refused p capture b v
