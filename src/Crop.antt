-- ===== src/Crop.antt =====
-- The crop rectangle of `TickVideoCapture` in VideoCapture.h: the size from the crop mode and the
-- rotation, the place from the alignment and the offsets, both held inside the captured source.
pub mod Inside
pub mod Output
mod Tests
use mi_ster_cast.Prelude.{
  ℕ, suc, ◌+◌, ◌-◌, ◌*◌, ◌/◌, ◌%◌, ◌^◌, min, Bool, true, false, ◌||◌, ltb, ◌==◌, if◌then◌else◌,
}
use mi_ster_cast.Prelude.Int.{ℤ, pos, negsuc}
use mi_ster_cast.Prelude.Words.{u32, sub_u32, to_u32, to_i32}

-- What the crop reads of `currentSourceOptions`; the offsets are INT16, the sizes UINT16.
pub record Options : Type 0 where
  pub alignment : ℕ
  pub cropmode : ℕ
  pub width : ℕ
  pub height : ℕ
  pub xoffset : ℤ
  pub yoffset : ℤ

pub record Rect : Type 0 where
  pub x : ℤ
  pub y : ℤ
  pub width : ℕ
  pub height : ℕ

-- `Rotation::CW90` and `Rotation::CCW90`
abbrev pub is_quarter_turn : ℕ → Bool
is_quarter_turn rotation = rotation == 1 || rotation == 2

-- The `switch` on the crop mode: 6 is `Full43`, 7 `Full54`, 8 `FullSource`; the others keep the size
-- of the options, turned with the picture.
pub mode_size : Options → ℕ → ℕ → ℕ → ℕ × ℕ
mode_size o rotation source_width source_height =
    if o.cropmode == 6
    then (
      (if is_quarter_turn rotation
          then u32 (source_height * 3) / 4
          else u32 (source_height * 4) / 3),
      source_height,
    )
    else if o.cropmode == 7
    then (
      (if is_quarter_turn rotation
          then u32 (source_height * 4) / 5
          else u32 (source_height * 5) / 4),
      source_height,
    )
    else if o.cropmode == 8
    then (source_width, source_height)
    else if is_quarter_turn rotation
    then (o.height, o.width)
    else (o.width, o.height)

-- `if (width > sourceWidth) width = sourceWidth;`
abbrev pub cap_size : ℕ → ℕ → ℕ
cap_size size source = if ltb source size then source else size

-- `xoffset += u`: the sum is unsigned and is converted back to int.
pub add_unsigned : ℤ → ℕ → ℤ
add_unsigned offset u = to_i32 (u32 (to_u32 offset + u))

-- The shifts of the alignment: to the middle, or to the far side.
pub to_middle : ℤ → ℕ → ℕ → ℤ
unfolding add_unsigned
to_middle offset source size = add_unsigned offset (sub_u32 (source / 2) (size / 2))

pub to_far : ℤ → ℕ → ℕ → ℤ
unfolding add_unsigned
to_far offset source size = add_unsigned offset (sub_u32 source size)

-- The `switch` on the alignment: Center, TopLeft, Top, TopRight, Right, BottomRight, Bottom,
-- BottomLeft, Left.
pub align : ℕ → ℤ → ℤ → ℕ → ℕ → ℕ → ℕ → ℤ × ℤ
align alignment xoffset yoffset source_width source_height width height =
    let middle_x = to_middle xoffset source_width width in
    let middle_y = to_middle yoffset source_height height in
    let far_x = to_far xoffset source_width width in
    let far_y = to_far yoffset source_height height in
    if alignment == 0
    then (middle_x, middle_y)
    else if alignment == 1
    then (xoffset, yoffset)
    else if alignment == 2
    then (middle_x, yoffset)
    else if alignment == 3
    then (far_x, yoffset)
    else if alignment == 4
    then (far_x, middle_y)
    else if alignment == 5
    then (far_x, far_y)
    else if alignment == 6
    then (middle_x, far_y)
    else if alignment == 7
    then (xoffset, far_y)
    else if alignment == 8
    then (xoffset, middle_y)
    else (xoffset, yoffset)

-- `if (xoffset < 0) xoffset = 0; else if (xoffset + width > sourceWidth) xoffset = sourceWidth - width;`
pub hold_inside : ℤ → ℕ → ℕ → ℤ
hold_inside (negsuc n) source size = pos 0
hold_inside (pos n) source size =
    if ltb source (u32 (to_u32 (pos n) + size)) then to_i32 (sub_u32 source size) else pos n

pub crop : Options → ℕ → ℕ → ℕ → Rect
crop o rotation source_width source_height =
    let (w, h) = mode_size o rotation source_width source_height in
    let width = cap_size w source_width in
    let height = cap_size h source_height in
    let (x, y) = align o.alignment o.xoffset o.yoffset source_width source_height width height in
    record {
      x = hold_inside x source_width width;
      y = hold_inside y source_height height;
      width = width;
      height = height;
    }

-- The size of the output: the modeline's active area, or the crop's size before one is set.
pub output_size : ℕ → ℕ → Rect → ℕ × ℕ
output_size capture_width capture_height r =
    if capture_width == 0 || capture_height == 0
    then (r.width, r.height)
    else (capture_width, capture_height)
