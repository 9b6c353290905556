-- ===== src/VideoCapture/Picture.antt =====
-- The end of `TickVideoCapture`: the mapped staging texture is copied row by row into the bitmap that
-- is neither published nor read, which is shown in the preview and published. A write past the end of
-- a buffer is a fault.
pub mod Rows
pub mod Publish
use mi_ster_cast.Prelude.{
  ℕ, zero, suc, ◌+◌, ◌-◌, ◌*◌, ◌%◌, ◌^◌, Bool, true, false, not, ◌&&◌, ◌||◌, Option, none, some,
  List, [], ◌∷◌, ◌++◌, length, get_elem?, set, take, replicate, ltb, ◌==◌, if◌then◌else◌,
}
use mi_ster_cast.Prelude.Fault.{◌>>=◌}
use mi_ster_cast.Prelude.Words.{u64}
use mi_ster_cast.Frame.{Bitmap}
use mi_ster_cast.Buffers.{successor, choose}

-- `D3D11_MAPPED_SUBRESOURCE`: the bytes at `pData`, and the pitch of a row, which may exceed its bytes.
pub record Mapped : Type 0 where
  pub bytes : ℕ → ℕ
  pub row_pitch : ℕ

abbrev pub store_byte : ℕ → ℕ → List ℕ → Option (List ℕ)
store_byte d v buffer = if ltb d (length buffer) then some (set buffer d v) else none

-- `memcpy` of `n` bytes from `s` of the texture to `d` of the buffer
pub fill_bytes : (ℕ → ℕ) → ℕ → ℕ → ℕ → List ℕ → Option (List ℕ)
fill_bytes bytes zero s d buffer = some buffer
fill_bytes bytes (suc n) s d buffer =
    (store_byte d (bytes s) buffer >>= λ buffer'. fill_bytes bytes n (s + 1) (d + 1) buffer')

-- The loop over the rows: `n` of them from row `y` on.
pub fill_rows : Mapped → ℕ → ℕ → ℕ → List ℕ → Option (List ℕ)
fill_rows m width zero y buffer = some buffer
fill_rows m width (suc n) y buffer =
    (fill_bytes m.bytes (u64 (width * 4)) (u64 (m.row_pitch * y)) (u64 (u64 (y * width) * 4)) buffer
      >>= λ buffer'. fill_rows m width n (y + 1) buffer')

-- `std::vector::resize`
abbrev pub resize : ℕ → List ℕ → List ℕ
resize n buffer = take n buffer ++ replicate (n - length buffer) 0

-- The resize before the copy.
pub size_bitmap : ℕ → ℕ → Bitmap → Bitmap
size_bitmap width height b =
    if not (b.width == width) || not (b.height == height)
    then record {
      width = width;
      height = height;
      buffer = resize (u64 (u64 (width * height) * 4)) b.buffer;
    }
    else b

pub fill_bitmap : Mapped → ℕ → ℕ → Bitmap → Option Bitmap
unfolding fill_bytes fill_rows size_bitmap
fill_bitmap m width height b =
    (fill_rows m width height 0 (size_bitmap width height b).buffer >>= λ buffer.
    some (record (size_bitmap width height b) { buffer = buffer }))

-- `videoCaptures`, `lastVideoCaptureIndex`, and the bitmaps that the preview callback was given, the
-- newest first.
pub record Screens : Type 0 where
  pub bitmaps : List Bitmap
  pub published : ℕ
  pub previews : List Bitmap

-- From the choice of the buffer to its publication; `active` is what `activeReadIndex` holds when it
-- is loaded.
pub publish_picture : Option ℕ → Mapped → ℕ → ℕ → Bool → Screens → Option Screens
unfolding fill_bitmap
publish_picture active m width height preview s =
    let next = choose active (successor s.published) in
    (get_elem? s.bitmaps next >>= λ old. fill_bitmap m width height old >>= λ b. some (record {
      bitmaps = set s.bitmaps next b;
      published = next;
      previews = if preview then b ∷ s.previews else s.previews;
    }))
