-- ===== src/VideoCapture/Start.antt =====
-- `InitializeVideoCapture` and `InitializeWindowCapture` of VideoCapture.h, on the globals of the
-- devices. Any prefix of the calls can succeed.
pub mod Accounts
pub mod Succeeds
use mi_ster_cast.Prelude.{
  bit, ℕ, ◌+◌, ◌-◌, Bool, true, false, ◌||◌, Option, none, some, List, [], ◌∷◌, ◌==◌, if◌then◌else◌,
}
use mi_ster_cast.Prelude.Int.{ℤ, pos, ltb_ℤ}
use mi_ster_cast.Prelude.Steps.{◌then_run◌, use_of, attempt}
use mi_ster_cast.VideoCapture.Device.{Device, Op}

-- What WinRT answers to `InitializeWindowCapture`; false is an exception, except that `IsWindow` and
-- `IsSupported` may answer it.
pub record WindowAnswers : Type 0 where
  pub exists : Bool
  pub supported : Bool
  pub item : Bool
  pub device : Bool
  pub size : ℤ × ℤ
  pub pool : Bool
  pub token : Bool
  pub session : Bool
  pub start : Bool

-- What the system answers to `InitializeVideoCapture`, call by call.
pub record StartAnswers : Type 0 where
  pub desktop : Bool
  pub drivers : List Bool
  pub dxgi_device : Bool
  pub factory : Bool
  pub d2d_device : Bool
  pub d2d_context : Bool
  pub window : WindowAnswers
  pub adapter : Bool
  pub output : Bool
  pub output1 : Bool
  pub duplicate : Bool

-- A call whose result replaces a local pointer, which is released before the result is tested.
abbrev pub exchange : Bool → Device → Option (Bool × Device)
exchange ok d = some (ok, record d { refs = d.refs + bit ok - 1 })

-- `Width <= 0 || Height <= 0` of a `SizeInt32`
abbrev pub is_empty_size : ℤ × ℤ → Bool
is_empty_size (width, height) = ltb_ℤ width (pos 1) || ltb_ℤ height (pos 1)

-- `InitializeWindowCapture`; the `catch` answers false like the tests.
pub initialize_window_capture : ℕ → WindowAnswers → Op
initialize_window_capture handle a =
    attempt a.exists (λ d. d)
    then_run attempt a.supported (λ d. d)
    then_run attempt a.item (λ d. record d { window_item = true })
    then_run attempt a.device (λ d. record d { window_device = true })
    then_run (λ d.
        some ((if is_empty_size a.size then false else true), record d { window_size = a.size }))
    then_run attempt a.pool (λ d. record d { window_pool = true })
    then_run attempt a.token (λ d. record d { window_token = true })
    then_run attempt a.session (λ d. record d { window_session = true })
    then_run attempt a.start (λ d. record d {
      window_started = true;
      active_window = handle;
      unavailable_logged = false;
    })

-- `D3D11CreateDevice` with one driver type after the other until it succeeds; it nulls both pointers
-- when it fails.
pub create_device : List Bool → Op
create_device [] d = some (false, d)
create_device (true ∷ drivers) d =
    some (true, record d { d3d_device = true; d3d_context = true; refs = d.refs + 2 })
create_device (false ∷ drivers) d =
    create_device drivers (record d { d3d_device = false; d3d_context = false })

-- The part that both sources share; it leaves `dxgiDevice` with a reference.
pub create_shared : StartAnswers → Op
unfolding create_device
create_shared a =
    attempt a.desktop (λ d. d)
    then_run create_device a.drivers
    then_run attempt a.dxgi_device (λ d. record d { refs = d.refs + 1 })
    then_run attempt a.factory (λ d. record d { d2d_factory = true; refs = d.refs + 1 })
    then_run attempt a.d2d_device (λ d. record d { d2d_device = true; refs = d.refs + 1 })
    then_run attempt a.d2d_context (λ d. record d { d2d_context = true; refs = d.refs + 1 })

-- `dxgiDevice->Release()` after `InitializeWindowCapture`, whatever it answers.
abbrev pub release_after : Op → Device → Option (Bool × Device)
release_after m d = elim (m d) [
  | none ↦ none
  | some (ok, d') ↦ some (ok, record d' { refs = d'.refs - 1 })
]

-- Desktop Duplication of one output.
pub create_duplication : StartAnswers → Op
create_duplication a =
    (λ d. some (true, record d { active_window = 0 }))
    then_run exchange a.adapter
    then_run exchange a.output
    then_run exchange a.output1
    then_run (λ d. some (
      a.duplicate,
      record d {
        duplication = if a.duplicate then true else d.duplication;
        refs = d.refs + bit a.duplicate - 1;
      },
    ))

-- `InitializeVideoCapture` for the window of the handle, or for the display with the handle 0.
pub initialize_video_capture : ℕ → StartAnswers → Op
unfolding create_shared create_duplication initialize_window_capture
initialize_video_capture handle a = create_shared a then_run (λ d.
    if handle == 0
    then create_duplication a d
    else release_after (initialize_window_capture handle a.window) d)
