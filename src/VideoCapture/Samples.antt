-- ===== src/VideoCapture/Samples.antt =====
-- A capture of a small display, for the tests.
use mi_ster_cast.Prelude.{◌%◌, refl, true, false, none, some, [], ◌∷◌, arith}
use mi_ster_cast.Prelude.Int.{pos}
use mi_ster_cast.Session.Globals.{first_source}
use mi_ster_cast.VideoCapture.Device.{no_device}
use mi_ster_cast.VideoCapture.Start.{StartAnswers}
use mi_ster_cast.VideoCapture.Picture.{Mapped}
use mi_ster_cast.VideoCapture.Grab.{VideoState, Acquire, Poll, TickAnswers, allocate}
use mi_ster_cast.VideoCapture.Tick.Keeps.{IsValid, new-IsScreens}

abbrev pub answers : StartAnswers
answers = record {
  desktop = true;
  drivers = false ∷ true ∷ [];
  dxgi_device = true;
  factory = true;
  d2d_device = false;
  d2d_context = true;
  window = record {
    exists = true;
    supported = true;
    item = true;
    device = true;
    size = (pos 4, pos 3);
    pool = true;
    token = true;
    session = true;
    start = true;
  };
  adapter = true;
  output = true;
  output1 = true;
  duplicate = true;
}

-- Two by two pixels, with four bytes of padding after each row.
abbrev pub texture : Mapped
texture = record { bytes = λ i. i % 256; row_pitch = 12 }

abbrev pub display : VideoState
display = record {
  device = record no_device {
    d3d_device = true;
    d3d_context = true;
    duplication = true;
    d2d_factory = true;
    d2d_device = true;
    d2d_context = true;
    have_frame_lock = true;
    frame_acquired = true;
    refs = 6;
  };
  display_index = 0;
  capture_function = some 1;
  config = first_source;
  current = first_source;
  new = first_source;
  has_new = false;
  output_width = 2;
  output_height = 2;
  captures = some (allocate none);
}

abbrev pub answer : TickAnswers
answer = record {
  restart = answers;
  window_exists = false;
  window_iconic = false;
  poll = Poll.threw;
  acquire = Acquire.acquired true;
  texture_width = 640;
  texture_height = 480;
  targets = record { target = true; staging = true; surface = true; bitmap = true };
  surface = true;
  bitmap = true;
  drawn = true;
  mapped = some texture;
  active = some 1;
}

pub display-IsValid : IsValid 0 display
display-IsValid = record {
  owes = refl;
  ready = ground arith;
  screens = allocate none;
  allocated = refl;
  kept = new-IsScreens;
  callback = 1;
  given = refl;
  wide = omega arith;
  width_u16 = omega arith;
  tall = omega arith;
  height_u16 = omega arith;
}

-- The same without any device, and with a restart that succeeds.
abbrev pub dark : VideoState
dark = record display { device = no_device }

pub dark-IsValid : IsValid 0 dark
dark-IsValid = record {
  owes = refl;
  ready = ground arith;
  screens = allocate none;
  allocated = refl;
  kept = new-IsScreens;
  callback = 1;
  given = refl;
  wide = omega arith;
  width_u16 = omega arith;
  tall = omega arith;
  height_u16 = omega arith;
}

abbrev pub waking : TickAnswers
waking = record answer { restart = record answers { d2d_device = true } }

-- A window is to be captured, and its `StartCapture` throws.
abbrev pub windowed : VideoState
windowed = record dark {
  config = record first_source { window_handle = 9 };
  current = record first_source { window_handle = 9 };
}

pub windowed-IsValid : IsValid 0 windowed
windowed-IsValid = record {
  owes = refl;
  ready = ground arith;
  screens = allocate none;
  allocated = refl;
  kept = new-IsScreens;
  callback = 1;
  given = refl;
  wide = omega arith;
  width_u16 = omega arith;
  tall = omega arith;
  height_u16 = omega arith;
}

abbrev pub throwing : TickAnswers
throwing = record answer {
  restart = record answers {
    d2d_device = true;
    window = record (answers.window) { start = false };
  };
}

-- As the library is loaded.
abbrev pub fresh : VideoState
fresh = record dark { captures = none }
