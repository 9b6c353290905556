-- ===== src/VideoCapture/Device/Succeeds.antt =====
-- The scale targets when no call fails.
use mi_ster_cast.Prelude.{ℕ, ◌≡◌, refl, Bool, true, false, ◌&&◌, some, ◌==◌, if◌then◌else◌}
use mi_ster_cast.Prelude.Steps.{Ends}
use mi_ster_cast.VideoCapture.Device.{
  Device, Targets, release_scale_targets, create_scale_targets, ensure_scale_targets,
}

abbrev pub all_targets : Targets
all_targets = record { target = true; staging = true; surface = true; bitmap = true }

pub ensure-succeeds :
    (width height : ℕ) (d : Device)
    → d.d3d_device ≡ true
    → d.d2d_context ≡ true
    → Ends (λ ok d'. ok ≡ true) (ensure_scale_targets width height all_targets d)
unfolding ensure_scale_targets create_scale_targets release_scale_targets
ensure-succeeds width height d device d2d =
    split (d.scale_target && d.scale_width == width && d.scale_height == height)
  where
    split :
        (same : Bool)
        → Ends
            (λ ok d'. ok ≡ true)
            (if same
              then some (true, d)
              else create_scale_targets width height all_targets (release_scale_targets d))
    split true = refl
    split false = rw (device, d2d) refl
