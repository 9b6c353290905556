-- ===== src/Crop/Output.antt =====
-- The size of the output once a mode is set.
use mi_ster_cast.Prelude.{ℕ, ◌<◌, ◌≡◌, arith}
use mi_ster_cast.Crop.{Rect, output_size}

pub output_size-set :
    (width height : ℕ) (r : Rect)
    → 0 < width
    → 0 < height
    → output_size width height r ≡ (width, height)
unfolding output_size
output_size-set width height r w h = ground arith
