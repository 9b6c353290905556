-- ===== src/VideoCapture/Drawing/Lands.antt =====
-- Where the corners of the crop land in the output.
use mi_ster_cast.Prelude.{
  Bool-cases, inl, inr, ℕ, ◌+◌, ◌*◌, ◌≡◌, ◌<◌, lt→ltb, refl, ap, ◌∙◌, Bool, true, false, not, none,
  some, ◌==◌, if◌then◌else◌,
}
use mi_ster_cast.Prelude.Int.{ℤ, pos, negsuc, ◌+ℤ◌, ◌-ℤ◌, ltb_ℤ, pos_part, neg_part, int_laws}
use mi_ster_cast.Crop.{Rect}
use mi_ster_cast.VideoCapture.Drawing.{
  Point, RectF, Drawing, source_rect, transposed_rect, full_rect, drawing,
}

abbrev pub twice : ℤ → ℤ
twice x = x +ℤ x

-- `Matrix3x2F::Rotation` about a centre, clockwise where y grows downwards, by the angles that the
-- code uses.
pub record Rotates (rotate : ℤ → Point → Point → Point) : Type 0 where
  pub left : (c p : Point) → rotate (negsuc 89) c p ≡ (c.0 +ℤ (p.1 -ℤ c.1), c.1 -ℤ (p.0 -ℤ c.0))
  pub right : (c p : Point) → rotate (pos 90) c p ≡ (c.0 -ℤ (p.1 -ℤ c.1), c.1 +ℤ (p.0 -ℤ c.0))
  pub over : (c p : Point) → rotate (pos 180) c p ≡ (c.0 -ℤ (p.0 -ℤ c.0), c.1 -ℤ (p.1 -ℤ c.1))

-- A corner, by whether it is at the right and at the bottom.
abbrev pub Corner : Type 0
Corner = Bool × Bool

abbrev pub corner_of : RectF → Corner → Point
corner_of r (right, bottom) =
    (if right then r.right else r.left, if bottom then r.bottom else r.top)

-- Where a turned picture has the corner: a picture for a monitor that is turned clockwise is turned
-- the other way.
abbrev pub turned : ℕ → Corner → Corner
turned rotation (right, bottom) =
    if rotation == 1
    then (bottom, not right)
    else if rotation == 2
    then (not bottom, right)
    else if rotation == 3
    then (not right, not bottom)
    else (right, bottom)

module _ (a b : ℕ) where
  far_plus : pos a +ℤ (pos (b + a) -ℤ pos b) ≡ pos (a * 2)
  far_plus = grind int_laws

  near_plus : pos a +ℤ (pos b -ℤ pos a -ℤ pos b) ≡ pos 0
  near_plus = grind int_laws

  near_minus : pos b -ℤ (pos (a + b) -ℤ pos a) ≡ pos 0
  near_minus = grind int_laws

  far_minus : pos b -ℤ (pos a -ℤ pos b -ℤ pos a) ≡ pos (b * 2)
  far_minus = grind int_laws

module _ (a : ℕ) where
  over_near : pos a -ℤ (pos (a * 2) -ℤ pos a) ≡ pos 0
  over_near = grind int_laws

  over_far : pos a -ℤ (pos 0 -ℤ pos a) ≡ pos (a * 2)
  over_far = grind int_laws

pair : {a b c d : ℤ} → a ≡ c → b ≡ d → ◌≡◌ {A = ℤ × ℤ} (a, b) (c, d)
pair p q = rw (p, q) refl

module _ (rotate : ℤ → Point → Point → Point) (rotates : Rotates rotate) (w h : ℕ) where
  abbrev centre : Point
  centre = (pos w, pos h)

  left_lem :
      (corner : Corner)
      → rotate (negsuc 89) centre (corner_of (transposed_rect w h) corner)
        ≡ corner_of (full_rect w h) (corner.1, not corner.0)
  left_lem (true, true) = rotates.left _ _ ∙ pair (far_plus w h) (near_minus w h)
  left_lem (true, false) = rotates.left _ _ ∙ pair (near_plus w h) (near_minus w h)
  left_lem (false, true) = rotates.left _ _ ∙ pair (far_plus w h) (far_minus w h)
  left_lem (false, false) = rotates.left _ _ ∙ pair (near_plus w h) (far_minus w h)

  right_lem :
      (corner : Corner)
      → rotate (pos 90) centre (corner_of (transposed_rect w h) corner)
        ≡ corner_of (full_rect w h) (not corner.1, corner.0)
  right_lem (true, true) = rotates.right _ _ ∙ pair (near_minus h w) (far_plus h w)
  right_lem (true, false) = rotates.right _ _ ∙ pair (far_minus h w) (far_plus h w)
  right_lem (false, true) = rotates.right _ _ ∙ pair (near_minus h w) (near_plus h w)
  right_lem (false, false) = rotates.right _ _ ∙ pair (far_minus h w) (near_plus h w)

  over_lem :
      (corner : Corner)
      → rotate (pos 180) centre (corner_of (full_rect w h) corner)
        ≡ corner_of (full_rect w h) (not corner.0, not corner.1)
  over_lem (true, true) = rotates.over _ _ ∙ pair (over_near w) (over_near h)
  over_lem (true, false) = rotates.over _ _ ∙ pair (over_near w) (over_far h)
  over_lem (false, true) = rotates.over _ _ ∙ pair (over_far w) (over_near h)
  over_lem (false, false) = rotates.over _ _ ∙ pair (over_far w) (over_far h)

-- `DrawBitmap` with a source and a destination: the corners of a source that is not empty are drawn
-- at those of the destination.
pub record Places (place : RectF → RectF → Point → Point) : Type 0 where
  pub corners :
      (source dest : RectF)
      → ltb_ℤ source.left source.right ≡ true
      → ltb_ℤ source.top source.bottom ≡ true
      → (corner : Corner) → place source dest (corner_of source corner) ≡ corner_of dest corner

-- A corner of the crop, in half pixels of the source.
abbrev pub crop_corner : Rect → Corner → Point
crop_corner r (right, bottom) = (
  if right then twice (r.x +ℤ pos r.width) else twice r.x,
  if bottom then twice (r.y +ℤ pos r.height) else twice r.y,
)

-- Where the drawing puts a point of the source.
abbrev pub lands :
    (RectF → RectF → Point → Point) → (ℤ → Point → Point → Point) → Drawing → Point → Point
lands place rotate d p = elim d.angle [
  | none ↦ place d.source d.dest p
  | some angle ↦ rotate angle d.centre (place d.source d.dest p)
]

source_rect-corner :
    (crop : Rect) (corner : Corner) → crop_corner crop corner ≡ corner_of (source_rect crop) corner
source_rect-corner crop (true, true) = refl
source_rect-corner crop (true, false) = refl
source_rect-corner crop (false, true) = refl
source_rect-corner crop (false, false) = refl

spans : (x : ℤ) (n : ℕ) → 0 < n → ltb_ℤ (twice x) (twice (x +ℤ pos n)) ≡ true
spans x n some_pixel =
    lt→ltb (pos_part (twice x) + neg_part (twice (x +ℤ pos n)))
      (pos_part (twice (x +ℤ pos n)) + neg_part (twice x)) (omega int_laws)

module _ (place : RectF → RectF → Point → Point) (places : Places place) where
  place_lem :
      (crop : Rect) (dest : RectF) (corner : Corner)
      → 0 < crop.width
      → 0 < crop.height
      → place (source_rect crop) dest (crop_corner crop corner) ≡ corner_of dest corner
  place_lem crop dest corner wide tall =
      ap (place (source_rect crop) dest) (source_rect-corner crop corner)
      ∙ places.corners (source_rect crop) dest (spans crop.x crop.width wide)
          (spans crop.y crop.height tall) corner

-- For every rotation, crop with a pixel and size of the output, any function that rotates points like
-- Direct2D's matrix and any that places points like `DrawBitmap`: the four corners of the crop in the
-- source land on the corners of the output, so the crop and nothing else fills it, whole. A quarter
-- turn swaps the sides, for `CW90` the top of the crop is at the left of the output and for `CCW90`
-- at the right, and `Flip180` turns it over.
pub drawing-lands :
    (place : RectF → RectF → Point → Point)
    → Places place
    → (rotate : ℤ → Point → Point → Point) → Rotates rotate
    → (rotation : ℕ) (crop : Rect) (w h : ℕ) (corner : Corner) → 0 < crop.width
    → 0 < crop.height
    → lands place rotate (drawing rotation crop w h) (crop_corner crop corner)
      ≡ corner_of (full_rect w h) (turned rotation corner)
unfolding drawing
drawing-lands place places rotate rotates rotation crop w h corner wide tall =
    elim (Bool-cases (rotation == 1)) [
      | inl e ↦ rw e (
          ap (rotate (negsuc 89) (pos w, pos h)) (placed (transposed_rect w h))
          ∙ left_lem rotate rotates w h corner)
      | inr e ↦ rw e (elim (Bool-cases (rotation == 2)) [
        | inl e' ↦ rw e' (
            ap (rotate (pos 90) (pos w, pos h)) (placed (transposed_rect w h))
            ∙ right_lem rotate rotates w h corner)
        | inr e' ↦ rw e' (elim (Bool-cases (rotation == 3)) [
          | inl e'' ↦ rw e'' (
              ap (rotate (pos 180) (pos w, pos h)) (placed (full_rect w h))
              ∙ over_lem rotate rotates w h corner)
          | inr e'' ↦ rw e'' (placed (full_rect w h))
        ])
      ])
    ]
  where
    placed :
        (dest : RectF)
        → place (source_rect crop) dest (crop_corner crop corner) ≡ corner_of dest corner
    placed dest = place_lem place places crop dest corner wide tall
