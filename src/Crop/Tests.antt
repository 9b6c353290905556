-- ===== src/Crop/Tests.antt =====
-- Crops of a 1920 x 1080 screen.
use mi_ster_cast.Prelude.{◌≡◌, refl, arith}
use mi_ster_cast.Prelude.Int.{pos, negsuc}
use mi_ster_cast.Crop.{Options, mode_size, to_middle, to_far, align, hold_inside, crop}
use mi_ster_cast.Crop.Inside.{IsOptions, AxisPlaced, middle, crop-placed}

abbrev doubled : Options
doubled = record {
  alignment = 0;
  cropmode = 2;
  width = 640;
  height = 480;
  xoffset = negsuc 9;
  yoffset = pos 400;
}

abbrev full : Options
full = record doubled { cropmode = 6; xoffset = pos 0; yoffset = pos 0 }

-- The middle, ten pixels to the left, and held at the lower edge.
doubled-crop :
    crop doubled 0 1920 1080 ≡ record { x = pos 630; y = pos 600; width = 640; height = 480 }
unfolding crop mode_size align to_middle to_far hold_inside
doubled-crop = refl

full-crop : crop full 0 1920 1080 ≡ record { x = pos 240; y = pos 0; width = 1440; height = 1080 }
unfolding crop mode_size align to_middle to_far hold_inside
full-crop = refl

doubled-IsOptions : IsOptions doubled
doubled-IsOptions = omega arith

crop-placed_example :
    let r = crop doubled 0 1920 1080 in
    AxisPlaced middle (negsuc 9) 1920 r.width r.x × AxisPlaced middle (pos 400) 1080 r.height r.y
crop-placed_example = crop-placed doubled 0 1920 1080 doubled-IsOptions (omega arith) (omega arith)
