-- ===== src/VideoCapture/Drawing.antt =====
-- Where `TickVideoCapture` of VideoCapture.h draws the crop: the rectangles and the rotation that it
-- gives to Direct2D. The coordinates are floats there, whole or half pixels, which are exact; here
-- they are integers that count half pixels.
pub mod Lands
use mi_ster_cast.Prelude.{ℕ, ◌+◌, ◌*◌, Bool, true, false, Option, none, some, ◌==◌, if◌then◌else◌}
use mi_ster_cast.Prelude.Int.{ℤ, pos, negsuc, ◌+ℤ◌, ◌-ℤ◌}
use mi_ster_cast.Crop.{Rect}

abbrev pub Point : Type 0
Point = ℤ × ℤ

-- `D2D1_RECT_F`
pub record RectF : Type 0 where
  pub left : ℤ
  pub top : ℤ
  pub right : ℤ
  pub bottom : ℤ

-- What `DrawBitmap` is given; `angle` is that of the rotation about the centre, in degrees, and no
-- angle is the identity.
pub record Drawing : Type 0 where
  pub source : RectF
  pub dest : RectF
  pub centre : Point
  pub angle : Option ℤ

-- `sourceRect`
abbrev pub source_rect : Rect → RectF
source_rect r = record {
  left = r.x +ℤ r.x;
  top = r.y +ℤ r.y;
  right = r.x +ℤ pos r.width +ℤ (r.x +ℤ pos r.width);
  bottom = r.y +ℤ pos r.height +ℤ (r.y +ℤ pos r.height);
}

-- `transposedRect`
abbrev pub transposed_rect : ℕ → ℕ → RectF
transposed_rect out_width out_height = record {
  left = pos out_width -ℤ pos out_height;
  top = pos out_height -ℤ pos out_width;
  right = pos (out_width + out_height);
  bottom = pos (out_height + out_width);
}

-- The whole output.
abbrev pub full_rect : ℕ → ℕ → RectF
full_rect out_width out_height = record {
  left = pos 0;
  top = pos 0;
  right = pos (out_width * 2);
  bottom = pos (out_height * 2);
}

-- The `switch` on the rotation: 1 is `CW90`, 2 `CCW90`, 3 `Flip180`.
pub drawing : ℕ → Rect → ℕ → ℕ → Drawing
drawing rotation crop out_width out_height = record {
  source = source_rect crop;
  dest =
      if rotation == 1
      then transposed_rect out_width out_height
      else if rotation == 2
      then transposed_rect out_width out_height
      else full_rect out_width out_height;
  centre = (pos out_width, pos out_height);
  angle =
      if rotation == 1
      then some (negsuc 89)
      else if rotation == 2
      then some (pos 90)
      else if rotation == 3
      then some (pos 180)
      else none;
}
