-- ===== src/VideoCapture/Device/Accounts.antt =====
-- The references of the devices.
use mi_ster_cast.Prelude.{
  bit, ℕ, ◌+◌, ◌≡◌, ◌≢◌, refl, Bool, true, false, ◌&&◌, some, arith, ◌==◌, if◌then◌else◌,
}
use mi_ster_cast.Prelude.Steps.{Ends}
use mi_ster_cast.VideoCapture.Device.{
  Device, no_device, release_scale_targets, cleanup_video_capture, Targets, create_scale_targets,
  ensure_scale_targets,
}

-- The references that the globals hold: those of the devices and those of the scale targets.
abbrev pub held_devices : Device → ℕ
held_devices d =
    bit d.d3d_device
    + bit d.d3d_context
    + bit d.duplication
    + bit d.d2d_factory
    + bit d.d2d_device
    + bit d.d2d_context

abbrev pub held_targets : Device → ℕ
held_targets d = bit d.scale_target + bit d.scale_bitmap + bit d.scale_staging

-- All references are in the globals, but for `n` of them.
abbrev pub Owes : ℕ → Device → Type 0
Owes n d = d.refs ≡ held_devices d + held_targets d + n

-- What holds between any two calls. A source that can deliver has all that a tick uses, scale
-- targets that have a size are complete, and the flag of the frame lock is the duplication's state.
pub record IsReady (d : Device) : Type 0 where
  pub display_device : d.duplication ≡ true → d.d3d_device ≡ true
  pub display_context : d.duplication ≡ true → d.d3d_context ≡ true
  pub display_d2d : d.duplication ≡ true → d.d2d_context ≡ true
  pub window_device : d.window_pool ≡ true → d.d3d_device ≡ true
  pub window_context : d.window_pool ≡ true → d.d3d_context ≡ true
  pub window_d2d : d.window_pool ≡ true → d.d2d_context ≡ true
  pub target : d.scale_width ≢ 0 → d.scale_target ≡ true
  pub bitmap : d.scale_width ≢ 0 → d.scale_bitmap ≡ true
  pub staging : d.scale_width ≢ 0 → d.scale_staging ≡ true
  pub locked : d.frame_acquired ≡ d.have_frame_lock
  pub acquired : d.frame_acquired ≡ true → d.duplication ≡ true

pub release_scale_targets-Owes : (n : ℕ) (d : Device) → Owes n d → Owes n (release_scale_targets d)
unfolding release_scale_targets
release_scale_targets-Owes n d h = ground arith

pub cleanup-Owes : (n : ℕ) (d : Device) → Owes n d → Owes n (cleanup_video_capture d)
unfolding cleanup_video_capture
cleanup-Owes n d h = ground arith

pub cleanup-blank :
    (n : ℕ) (d : Device) → Owes n d → cleanup_video_capture d ≡ record no_device { refs = n }
unfolding cleanup_video_capture
cleanup-blank n d h = ground arith

-- What `EnsureScaleTargets` leaves.
pub record Ensured (n : ℕ) (d : Device) (ok : Bool) (d' : Device) : Type 0 where
  pub owes : Owes n d'
  pub ready : IsReady d'
  pub complete :
      ok ≡ true → (d'.scale_target ≡ true) × (d'.scale_bitmap ≡ true) × (d'.scale_staging ≡ true)
  pub context : d'.d3d_context ≡ d.d3d_context
  pub d2d : d'.d2d_context ≡ d.d2d_context

module _ (n width height : ℕ) (d : Device) (owes : Owes n d) (ready : IsReady d)
    (device : d.d3d_device ≡ true) (d2d : d.d2d_context ≡ true) where
  create_scale_targets-Ensured :
      (target staging surface bitmap : Bool)
      → let a : Targets = record {
        target = target;
        staging = staging;
        surface = surface;
        bitmap = bitmap;
      } in
        Ends (Ensured n d) (create_scale_targets width height a (release_scale_targets d))
  unfolding create_scale_targets release_scale_targets
  create_scale_targets-Ensured false staging surface bitmap = rw device (ground (arith, ready))
  create_scale_targets-Ensured true false surface bitmap = rw device (ground (arith, ready))
  create_scale_targets-Ensured true true false bitmap = rw device (ground (arith, ready))
  create_scale_targets-Ensured true true true false = rw (device, d2d) (ground (arith, ready))
  create_scale_targets-Ensured true true true true = rw (device, d2d) (ground (arith, ready))

  pub ensure-Ensured :
      (a : Targets) → width ≢ 0 → Ends (Ensured n d) (ensure_scale_targets width height a d)
  unfolding ensure_scale_targets
  ensure-Ensured a wide =
      split (d.scale_target && d.scale_width == width && d.scale_height == height) refl
    where
      same : Bool
      same = d.scale_target && d.scale_width == width && d.scale_height == height

      split :
          (b : Bool)
          → same ≡ b
          → Ends (Ensured n d) (
              if b
              then some (true, d)
              else create_scale_targets width height a (release_scale_targets d))
      split true e = ground (arith, owes, ready, wide)
      split false e = create_scale_targets-Ensured a.target a.staging a.surface a.bitmap
