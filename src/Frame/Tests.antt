-- ===== src/Frame/Tests.antt =====
-- Small frames, packed by evaluation, and the theorems at concrete inputs.
use mi_ster_cast.Prelude.{ℕ, ◌≡◌, refl, Bool, true, false, Option, none, some, [], ◌∷◌, arith}
use mi_ster_cast.Modeline.{rgb888, rgb565, bytes_per_pixel}
use mi_ster_cast.Frame.{
  Bitmap, Packer, Memory, copy_888, copy_565, pixel_565, copy_row, src_row, columns, pack_rows,
  packed_bytes, refused, pack_frame,
}
use mi_ster_cast.Frame.Rows.{IsBytes-of_all}
use mi_ster_cast.Frame.Pack.{IsCapture, IsBlit, RowsPacked, pack_frame-image}
use mi_ster_cast.Frame.Fields.{fields_partition}

-- Two rows of two pixels.
abbrev capture : Bitmap
capture = record {
  width = 2;
  height = 2;
  buffer = 10 ∷ 20 ∷ 30 ∷ 255 ∷ 11 ∷ 21 ∷ 31 ∷ 255 ∷ 12 ∷ 22 ∷ 32 ∷ 255 ∷ 13 ∷ 23 ∷ 33 ∷ 255 ∷ [];
}

abbrev progressive : Packer
progressive = record { rgb_mode = rgb888; width = 2; height = 2; interlace = false; field = 0 }

abbrev odd_field : Packer
odd_field = record { rgb_mode = rgb565; width = 2; height = 1; interlace = true; field = 0 }

abbrev zeros : Memory
zeros a = 0

abbrev peek : Option (Bool × Option Memory) → ℕ → Option ℕ
peek none a = none
peek (some (done, none)) a = none
peek (some (done, some fb)) a = some (fb a)

-- The third pixel of the blit is the first of the second row.
progressive_byte : peek (pack_frame progressive capture (some zeros)) 7 ≡ some 22
unfolding pack_frame refused packed_bytes pack_rows copy_row copy_888 columns src_row
    bytes_per_pixel
progressive_byte = refl

-- 32 / 8 * 2048 + 22 / 4 * 32 + 12 / 8 = 8353, high byte 32
odd_field_byte : peek (pack_frame odd_field capture (some zeros)) 1 ≡ some 32
unfolding pack_frame refused packed_bytes pack_rows copy_row copy_565 pixel_565 columns src_row
    bytes_per_pixel
odd_field_byte = refl

null_destination : pack_frame progressive capture none ≡ some (false, none)
unfolding pack_frame
null_destination = refl

capture-IsCapture : IsCapture capture
capture-IsCapture = record {
  wide = omega arith;
  tall = omega arith;
  width_u16 = omega arith;
  height_u16 = omega arith;
  holds = omega arith;
  bytes = IsBytes-of_all capture.buffer (omega arith);
}

progressive-IsBlit : IsBlit progressive
unfolding bytes_per_pixel
progressive-IsBlit = omega arith

pack_frame-image_example :
    (fb' : Memory) × (pack_frame progressive capture (some zeros) ≡ some (true, some fb'))
    × RowsPacked progressive capture 0 2 zeros fb'
pack_frame-image_example =
    pack_frame-image progressive capture zeros progressive-IsBlit capture-IsCapture

fields_partition_example :
    (src_row (record odd_field { field = 0 }) capture 0 ≡ 1)
    × (src_row (record odd_field { field = 1 }) capture 0 ≡ 1
        → (◌≡◌ {A = ℕ} 1 0) × (◌≡◌ {A = ℕ} 0 0))
fields_partition_example =
    fields_partition odd_field capture 1 1 0 refl refl (omega arith) (omega arith) (omega arith)
      (omega arith)
