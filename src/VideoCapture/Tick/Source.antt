-- ===== src/VideoCapture/Tick/Source.antt =====
-- What the first half of a tick leaves: the source's texture, or the end of the tick.
use mi_ster_cast.Prelude.{
  ℕ, ◌+◌, ◌≡◌, refl, Bool, true, false, not, ◌&&◌, ◌||◌, Option, none, some, arith, ◌==◌,
  if◌then◌else◌,
}
use mi_ster_cast.Prelude.Int.{ℤ}
use mi_ster_cast.Prelude.Steps.{Ends}
use mi_ster_cast.VideoCapture.Device.{Device}
use mi_ster_cast.VideoCapture.Device.Accounts.{Owes, IsReady}
use mi_ster_cast.VideoCapture.Start.{StartAnswers, is_empty_size}
use mi_ster_cast.VideoCapture.Picture.{Screens}
use mi_ster_cast.VideoCapture.Grab.{
  VideoState, TickAnswers, Acquire, Poll, release_frame, take_display_frame, take_window_frame,
  poll_window, acquire_window, acquire_display, give_up, is_same, newest, Grab, rebuild,
}
use mi_ster_cast.VideoCapture.Tick.{has_source, capture_frame}
use mi_ster_cast.VideoCapture.Tick.Keeps.{IsValid, Idle, rebuild-Idle}

abbrev pub Grabs : (VideoState → Type 0) → (ℕ × ℕ → VideoState → Type 0) → Grab → Type 0
Grabs P Q none = ⊥
Grabs P Q (some (none, s)) = P s
Grabs P Q (some (some source, s)) = Q source s

-- The tick holds the source's texture, one reference more, and has what the read-back uses.
pub record Holding (n : ℕ) (s s' : VideoState) : Type 0 where
  pub valid : IsValid (n + 1) s'
  pub device : s'.device.d3d_device ≡ true
  pub context : s'.device.d3d_context ≡ true
  pub d2d : s'.device.d2d_context ≡ true
  pub same : s'.captures ≡ s.captures
  pub options : s'.current ≡ s.current
  pub output_width : s'.output_width ≡ s.output_width
  pub output_height : s'.output_height ≡ s.output_height

pub IsValid-with_device :
    (n m : ℕ) (s : VideoState) (d : Device)
    → IsValid n s
    → Owes m d
    → IsReady d
    → IsValid m (record s { device = d })
IsValid-with_device n m s d v owes ready = record {
  owes = owes;
  ready = ready;
  screens = v.screens;
  allocated = v.allocated;
  kept = v.kept;
  callback = v.callback;
  given = v.given;
  wide = v.wide;
  width_u16 = v.width_u16;
  tall = v.tall;
  height_u16 = v.height_u16;
}

pub Idle-of_valid :
    (n : ℕ) (a : StartAnswers) (captures : Option Screens) (s' : VideoState)
    → IsValid n s'
    → s'.captures ≡ captures
    → Idle n a captures s'
Idle-of_valid n a captures s' v same = record {
  lost = n;
  no_fewer = omega arith;
  no_more = omega arith;
  valid = v;
  same = same;
}

give_up-Grabs :
    (P : VideoState → Type 0) (Q : ℕ × ℕ → VideoState → Type 0) (r : Option (Bool × VideoState))
    → Ends (λ ok s. (ok ≡ false) × P s) r
    → Grabs P Q (give_up r)
give_up-Grabs P Q none e = e
give_up-Grabs P Q (some (ok, s)) e = e.1

module _ (n : ℕ) (k : TickAnswers) (s : VideoState) (v : IsValid n s) where
  -- The frame of the display: the lock is released, and taken again with a frame.
  module _ (duplication : s.device.duplication ≡ true) where
    abbrev released : VideoState
    released = record s { device = release_frame s.device }

    released-IsValid : IsValid n released
    unfolding release_frame
    released-IsValid =
        IsValid-with_device n n s (release_frame s.device) v (ground (arith, v.owes))
          (ground (arith, v.ready))

    take_display_frame-Grabs :
        (a : Acquire)
        → Grabs (Idle n k.restart s.captures) (λ z. Holding n s) (take_display_frame k a released)
    unfolding take_display_frame release_frame
    take_display_frame-Grabs Acquire.timeout =
        Idle-of_valid n k.restart s.captures released released-IsValid refl
    take_display_frame-Grabs Acquire.lost =
        give_up-Grabs (Idle n k.restart s.captures) (λ z. Holding n s) (rebuild k.restart released)
          (rebuild-Idle n k.restart released released-IsValid)
    take_display_frame-Grabs (Acquire.acquired false) =
        Idle-of_valid n k.restart s.captures _
          (IsValid-with_device n n released _ released-IsValid (ground (arith, v.owes))
            (ground (arith, v.ready, duplication)))
          refl
    take_display_frame-Grabs (Acquire.acquired true) = record {
      valid =
          IsValid-with_device n (n + 1) released _ released-IsValid (ground (arith, v.owes))
            (ground (arith, v.ready, duplication));
      device = v.ready.display_device duplication;
      context = v.ready.display_context duplication;
      d2d = v.ready.display_d2d duplication;
      same = refl;
      options = refl;
      output_width = refl;
      output_height = refl;
    }

    pub acquire_display-Grabs :
        Grabs (Idle n k.restart s.captures) (λ z. Holding n s) (acquire_display k s)
    unfolding acquire_display release_frame
    acquire_display-Grabs = split s.device.have_frame_lock refl
      where
        split :
            (b : Bool)
            → s.device.have_frame_lock ≡ b
            → Grabs (Idle n k.restart s.captures) (λ z. Holding n s) (acquire_display k s)
        split b e =
            let free : released.device.frame_acquired ≡ false = ground (arith, v.ready) in
            let open_lem : (s.device.duplication && not released.device.frame_acquired) ≡ true =
              ground (arith, free, duplication) in
            rw open_lem (take_display_frame-Grabs k.acquire)

  -- The frame of the window.
  module _ (pool : s.device.window_pool ≡ true) where
    take_window_frame-Grabs :
        (recreated texture : Bool) (frame : Option (ℤ × ℤ))
        → Grabs
            (Idle n k.restart s.captures)
            (λ z. Holding n s)
            (take_window_frame k recreated texture frame s)
    unfolding take_window_frame
    take_window_frame-Grabs recreated texture none = Idle-of_valid n k.restart s.captures s v refl
    take_window_frame-Grabs recreated texture (some (width, height)) =
        Grabs-if (is_empty_size (width, height)) _ _ idle (
          Grabs-if
            (not
              (is_same width (s.device.window_size.0) && is_same height (s.device.window_size.1)))
            _ _
            (Grabs-if recreated _ _
              (Idle-of_valid n k.restart s.captures resized resized-IsValid refl)
              (give_up-Grabs (Idle n k.restart s.captures) (λ z. Holding n s)
                (rebuild k.restart resized) (rebuild-Idle n k.restart resized resized-IsValid)))
            (Grabs-if texture _ _ holding idle))
      where
        Grabs-if :
            (b : Bool) (x y : Grab)
            → Grabs (Idle n k.restart s.captures) (λ z. Holding n s) x
            → Grabs (Idle n k.restart s.captures) (λ z. Holding n s) y
            → Grabs (Idle n k.restart s.captures) (λ z. Holding n s) (if b then x else y)
        Grabs-if true x y p q = p
        Grabs-if false x y p q = q

        idle : Idle n k.restart s.captures s
        idle = Idle-of_valid n k.restart s.captures s v refl

        resized : VideoState
        resized = record s { device = record (s.device) { window_size = (width, height) } }

        resized-IsValid : IsValid n resized
        resized-IsValid =
            IsValid-with_device n n s resized.device v (ground (arith, v.owes))
              (ground (arith, v.ready))

        taken : VideoState
        taken = record s {
          device = record (s.device) { unavailable_logged = false; refs = s.device.refs + 1 };
        }

        holding : Holding n s taken
        holding = record {
          valid =
              IsValid-with_device n (n + 1) s taken.device v (ground (arith, v.owes))
                (ground (arith, v.ready));
          device = v.ready.window_device pool;
          context = v.ready.window_context pool;
          d2d = v.ready.window_d2d pool;
          same = refl;
          options = refl;
          output_width = refl;
          output_height = refl;
        }

    poll_window-Grabs :
        (p : Poll) → Grabs (Idle n k.restart s.captures) (λ z. Holding n s) (poll_window k p s)
    unfolding poll_window
    poll_window-Grabs Poll.threw =
        give_up-Grabs (Idle n k.restart s.captures) (λ z. Holding n s) (rebuild k.restart s)
          (rebuild-Idle n k.restart s v)
    poll_window-Grabs (Poll.polled frames recreated texture) =
        take_window_frame-Grabs recreated texture (newest none frames)

    pub acquire_window-Grabs :
        Grabs (Idle n k.restart s.captures) (λ z. Holding n s) (acquire_window k s)
    unfolding acquire_window
    acquire_window-Grabs = split (not k.window_exists || k.window_iconic)
      where
        there :
            (b : Bool)
            → b ≡ true
            → Grabs
                (Idle n k.restart s.captures)
                (λ z. Holding n s)
                (if b then poll_window k k.poll s else none)
        there true e = poll_window-Grabs k.poll
        there false e = cc e

        unavailable : VideoState
        unavailable = record s { device = record (s.device) { unavailable_logged = true } }

        split :
            (away : Bool)
            → Grabs
                (Idle n k.restart s.captures)
                (λ z. Holding n s)
                (if away
                  then some (none, unavailable)
                  else if s.device.window_pool
                  then poll_window k k.poll s
                  else none)
        split true =
            Idle-of_valid n k.restart s.captures unavailable
              (IsValid-with_device n n s unavailable.device v (ground (arith, v.owes))
                (ground (arith, v.ready)))
              refl
        split false = there s.device.window_pool pool

  -- The source that the options name is there.
  pub capture_frame-Grabs :
      has_source s ≡ true
      → Grabs (Idle n k.restart s.captures) (λ z. Holding n s) (capture_frame k s)
  unfolding capture_frame
  capture_frame-Grabs source = split (s.current.window_handle == 0) source
    where
      split :
          (display : Bool)
          → (if display then s.device.duplication else s.device.window_pool) ≡ true
          → Grabs
              (Idle n k.restart s.captures)
              (λ z. Holding n s)
              (if display then acquire_display k s else acquire_window k s)
      split true e = acquire_display-Grabs e
      split false e = acquire_window-Grabs e
