-- ===== src/VideoCapture/Start/Accounts.antt =====
-- What `InitializeVideoCapture` leaves behind, however far it comes.
use mi_ster_cast.Prelude.{
  bit, Bool-cases, ℕ, ◌+◌, ◌≡◌, ◌≢◌, refl, inl, inr, Bool, true, false, not, ◌&&◌, ◌||◌, Option,
  none, some, List, [], ◌∷◌, arith, ◌==◌, if◌then◌else◌,
}
use mi_ster_cast.Prelude.Steps.{Ends, then_run-Ends}
use mi_ster_cast.VideoCapture.Device.{Device, no_device, cleanup_video_capture}
use mi_ster_cast.VideoCapture.Device.Accounts.{Owes, IsReady, cleanup-blank}
use mi_ster_cast.VideoCapture.Start.{
  StartAnswers, initialize_window_capture, create_device, create_shared, create_duplication,
  release_after, initialize_video_capture,
}

-- No device, and `n` references that nothing holds.
abbrev pub blank : ℕ → Device
blank n = record no_device { refs = n }

abbrev pub any : List Bool → Bool
any [] = false
any (b ∷ bs) = b || any bs

-- The start ends between `QueryInterface` of the device and its release.
abbrev pub loses_device : StartAnswers → Bool
loses_device a =
    a.desktop && any a.drivers && a.dxgi_device && not (a.factory && a.d2d_device && a.d2d_context)

pub create_device-blank :
    (n : ℕ) (drivers : List Bool)
    → create_device drivers (blank n)
      ≡ some (
        any drivers,
        (if any drivers
            then record (blank n) { d3d_device = true; d3d_context = true; refs = n + 2 }
            else blank n),
      )
unfolding create_device
create_device-blank n [] = refl
create_device-blank n (true ∷ drivers) = refl
create_device-blank n (false ∷ drivers) = create_device-blank n drivers

-- The shared part: it succeeds with the device in a local pointer, or it leaves no source.
record Shared (n lost : ℕ) (ok : Bool) (d : Device) : Type 0 where
  built :
      ok ≡ true
      → d ≡ record (blank (n + 6)) {
        d3d_device = true;
        d3d_context = true;
        d2d_factory = true;
        d2d_device = true;
        d2d_context = true;
      }
  owes : ok ≡ false → Owes (n + lost) d
  ready : ok ≡ false → IsReady d
  kept : ok ≡ true → lost ≡ 0
  no_source : ok ≡ false → (d.window_pool ≡ false) × (d.duplication ≡ false)

create_shared-Shared :
    (n : ℕ) (a : StartAnswers) → Ends (Shared n (bit (loses_device a))) (create_shared a (blank n))
unfolding create_shared
create_shared-Shared n a = ground (arith, create_device-blank n a.drivers)

-- What a start from nothing leaves. It succeeds exactly with a source that delivers.
pub record Started (n handle : ℕ) (a : StartAnswers) (ok : Bool) (d : Device) : Type 0 where
  pub owes : Owes (n + bit (loses_device a)) d
  pub ready : IsReady d
  pub display : ok ≡ true → handle ≡ 0 → d.duplication ≡ true
  pub window : ok ≡ true → handle ≢ 0 → (d.window_pool ≡ true) × (d.window_started ≡ true)
  pub display_only : handle ≡ 0 → d.window_pool ≡ false
  pub window_only : handle ≢ 0 → d.duplication ≡ false

module _ (n handle : ℕ) (a : StartAnswers) where
  display-Started :
      (d : Device)
      → Shared n (bit (loses_device a)) true d
      → handle ≡ 0
      → Ends (Started n handle a) (create_duplication a d)
  unfolding create_duplication
  display-Started d s e = ground (arith, s, e)

  window-Started :
      (d : Device)
      → Shared n (bit (loses_device a)) true d
      → handle ≢ 0
      → Ends (Started n handle a) (release_after (initialize_window_capture handle a.window) d)
  unfolding initialize_window_capture
  window-Started d s e = ground (arith, s, e)

  source-Started :
      (d : Device)
      → Shared n (bit (loses_device a)) true d
      → Ends (Started n handle a) (
          if handle == 0
          then create_duplication a d
          else release_after (initialize_window_capture handle a.window) d)
  source-Started d s = elim (Bool-cases (handle == 0)) [
    | inl e ↦ rw e (display-Started d s (ground arith))
    | inr e ↦ rw e (window-Started d s (ground arith))
  ]

  pub initialize-Started : Ends (Started n handle a) (initialize_video_capture handle a (blank n))
  unfolding initialize_video_capture
  initialize-Started =
      then_run-Ends (Shared n (bit (loses_device a))) (Started n handle a) (create_shared a) _
        (blank n) (create_shared-Shared n a) source-Started (λ d s. ground (arith, s))

  -- `CleanupVideoCapture` after `InitializeVideoCapture`, which started from nothing and came as far
  -- as the answers of the system let it: every pointer is null and every flag reset, as before, and
  -- every reference is released, but for one that is lost exactly if the device was found and then a
  -- call of Direct2D fails.
  pub initialize-cleanup :
      Ends
        (λ ok d. cleanup_video_capture d ≡ blank (n + bit (loses_device a)))
        (initialize_video_capture handle a (blank n))
  initialize-cleanup = weaken (initialize_video_capture handle a (blank n)) initialize-Started
    where
      weaken :
          (r : Option (Bool × Device))
          → Ends (Started n handle a) r
          → Ends (λ ok d. cleanup_video_capture d ≡ blank (n + bit (loses_device a))) r
      weaken none p = p
      weaken (some (ok, d)) p = cleanup-blank (n + bit (loses_device a)) d p.owes
