-- ===== src/Crop/Inside.antt =====
-- The crop lies inside the source, and stands where the alignment and the offsets put it.
use mi_ster_cast.Prelude.{
  ℕ, ◌+◌, ◌-◌, ◌*◌, ◌/◌, ◌^◌, ◌≤◌, ◌<◌, ◌≡◌, ◌||◌, min, ◌==◌, if◌then◌else◌, arith, refl,
}
use mi_ster_cast.Prelude.Int.{ℤ, pos, negsuc, ◌+ℤ◌, ◌≤ℤ◌}
use mi_ster_cast.Crop.{
  Options, is_quarter_turn, mode_size, cap_size, add_unsigned, to_middle, to_far, align,
  hold_inside, crop,
}

-- The values of an INT16.
abbrev pub IsI16 : ℤ → Type 0
IsI16 z = (negsuc 32767 ≤ℤ z) × (z ≤ℤ pos 32767)

-- A captured source, of at least a pixel and below 2 ^ 16 pixels a side.
abbrev pub IsSide : ℕ → Type 0
IsSide n = (0 < n) × (n < 2 ^ 16)

pub record IsOptions (o : Options) : Type 0 where
  pub width_u16 : o.width < 2 ^ 16
  pub height_u16 : o.height < 2 ^ 16
  pub xoffset_i16 : IsI16 o.xoffset
  pub yoffset_i16 : IsI16 o.yoffset

-- An integer held between 0 and a limit.
abbrev pub hold : ℤ → ℕ → ℤ
hold (negsuc n) limit = pos 0
hold (pos n) limit = pos (min n limit)

-- How far an alignment moves a crop of `size` within `source`: not, half or all of the room left.
pub data Anchor : Type 0 where
  near middle far : Anchor

abbrev pub horizontal : ℕ → Anchor
horizontal a =
    if a == 0 || a == 2 || a == 6 then middle else if a == 3 || a == 4 || a == 5 then far else near

abbrev pub vertical : ℕ → Anchor
vertical a =
    if a == 0 || a == 4 || a == 8 then middle else if a == 5 || a == 6 || a == 7 then far else near

abbrev pub room : Anchor → ℕ → ℕ → ℕ
room near source size = 0
room middle source size = source / 2 - size / 2
room far source size = source - size

-- In the range of the offsets the unsigned sum is the integer sum.
add_unsigned-eq : (z : ℤ) (u : ℕ) → IsI16 z → u < 2 ^ 16 → add_unsigned z u ≡ z +ℤ pos u
unfolding add_unsigned ◌+ℤ◌
add_unsigned-eq z u h p = ground arith

hold_inside-eq :
    (z : ℤ) (source size : ℕ)
    → z ≤ℤ pos 200000
    → source < 2 ^ 16
    → size ≤ source
    → hold_inside z source size ≡ hold z (source - size)
unfolding hold_inside
hold_inside-eq z source size h p q = ground arith

mode_size-bounds :
    (o : Options) (rotation source_width source_height : ℕ)
    → IsOptions o
    → IsSide source_width
    → IsSide source_height
    → let (w, h) = mode_size o rotation source_width source_height in (w < 2 ^ 17) × (h < 2 ^ 16)
unfolding mode_size
mode_size-bounds o rotation source_width source_height v sw sh = ground arith

to_middle-eq :
    (z : ℤ) (source size : ℕ)
    → IsI16 z
    → source < 2 ^ 16
    → size ≤ source
    → to_middle z source size ≡ z +ℤ pos (source / 2 - size / 2)
unfolding to_middle ◌+ℤ◌
to_middle-eq z source size h p q = ground arith

to_far-eq :
    (z : ℤ) (source size : ℕ)
    → IsI16 z
    → source < 2 ^ 16
    → size ≤ source
    → to_far z source size ≡ z +ℤ pos (source - size)
unfolding to_far ◌+ℤ◌
to_far-eq z source size h p q = ground arith

+ℤ-zero : (z : ℤ) → z +ℤ pos 0 ≡ z
unfolding ◌+ℤ◌
+ℤ-zero z = ground arith

sum-le : (z : ℤ) (u : ℕ) → IsI16 z → u < 2 ^ 16 → z +ℤ pos u ≤ℤ pos 200000
unfolding ◌+ℤ◌
sum-le z u h p = ground arith

-- The `switch` moves each axis by its anchor.
align-eq :
    (a : ℕ) (x y : ℤ) (source_width source_height w h : ℕ)
    → IsI16 x
    → IsI16 y
    → source_width < 2 ^ 16
    → source_height < 2 ^ 16
    → w ≤ source_width
    → h ≤ source_height
    → align a x y source_width source_height w h ≡ (
      x +ℤ pos (room (horizontal a) source_width w),
      y +ℤ pos (room (vertical a) source_height h),
    )
unfolding align
align-eq a x y source_width source_height w h hx hy sw sh hw hh = ground (
  arith,
  to_middle-eq x source_width w,
  to_middle-eq y source_height h,
  to_far-eq x source_width w,
  to_far-eq y source_height h,
  +ℤ-zero x,
  +ℤ-zero y,
)

room-le : (a : Anchor) (source size : ℕ) → size ≤ source → room a source size ≤ source
room-le near source size h = omega arith
room-le middle source size h = omega arith
room-le far source size h = omega arith

-- One axis of the crop: where it stands, and that it ends inside the source.
pub record AxisPlaced (anchor : Anchor) (offset : ℤ) (source size : ℕ) (at : ℤ) : Type 0 where
  pub within : size ≤ source
  pub placed : at ≡ hold (offset +ℤ pos (room anchor source size)) (source - size)
  pub inside : (n : ℕ) × (at ≡ pos n) × (n + size ≤ source)

hold_room :
    (z : ℤ) (source size : ℕ)
    → size ≤ source
    → (n : ℕ) × (hold z (source - size) ≡ pos n) × (n + size ≤ source)
hold_room (pos n) source size h = (min n (source - size), refl, omega arith)
hold_room (negsuc n) source size h = (0, refl, omega arith)

AxisPlaced-of :
    (anchor : Anchor) (offset : ℤ) (source size : ℕ)
    → IsI16 offset
    → source < 2 ^ 16
    → size ≤ source
    → AxisPlaced anchor offset source size
        (hold_inside (offset +ℤ pos (room anchor source size)) source size)
AxisPlaced-of anchor offset source size h p q =
    let moved = offset +ℤ pos (room anchor source size) in
    let e : hold_inside moved source size ≡ hold moved (source - size) =
      hold_inside-eq moved source size
        (sum-le offset (room anchor source size) h (omega (arith, room-le anchor source size q))) p
        q in
    record { within = q; placed = e; inside = rw e (hold_room moved source size q) }

-- For a source below 2 ^ 16 pixels a side and options in the ranges of their types, the unsigned
-- arithmetic of the crop never misplaces it: each axis starts at the offset plus the room that the
-- alignment leaves before it, as integers, held between 0 and the last place where the crop still
-- ends inside the source.
pub crop-placed :
    (o : Options) (rotation source_width source_height : ℕ)
    → IsOptions o
    → IsSide source_width
    → IsSide source_height
    → let r = crop o rotation source_width source_height in
      AxisPlaced (horizontal o.alignment) o.xoffset source_width r.width r.x
      × AxisPlaced (vertical o.alignment) o.yoffset source_height r.height r.y
unfolding crop
crop-placed o rotation source_width source_height v sw sh =
    let w = cap_size (mode_size o rotation source_width source_height).0 source_width in
    let h = cap_size (mode_size o rotation source_width source_height).1 source_height in
    let hw : w ≤ source_width = ground arith in
    let hh : h ≤ source_height = ground arith in
    rw
      (align-eq o.alignment o.xoffset o.yoffset source_width source_height w h v.xoffset_i16
        v.yoffset_i16 sw.1 sh.1 hw hh)
      (
        AxisPlaced-of (horizontal o.alignment) o.xoffset source_width w v.xoffset_i16 sw.1 hw,
        AxisPlaced-of (vertical o.alignment) o.yoffset source_height h v.yoffset_i16 sh.1 hh,
      )

-- The full-picture modes: Full43 and Full54 take the whole height of the source and the width of
-- that ratio (turned with a quarter turn of the picture), cut to the source; FullSource takes all.
pub crop-full_modes :
    (o : Options) (rotation source_width source_height : ℕ)
    → IsSide source_width
    → IsSide source_height
    → let r = crop o rotation source_width source_height in
      let turned = is_quarter_turn rotation in
      (o.cropmode ≡ 6
        → (r.height ≡ source_height)
          × (r.width
              ≡ min source_width (if turned then source_height * 3 / 4 else source_height * 4 / 3)))
      × (o.cropmode ≡ 7
          → (r.height ≡ source_height)
            × (r.width
                ≡ min source_width
                    (if turned then source_height * 4 / 5 else source_height * 5 / 4)))
      × (o.cropmode ≡ 8 → (r.height ≡ source_height) × (r.width ≡ source_width))
unfolding crop mode_size
crop-full_modes o rotation source_width source_height sw sh = ground arith
