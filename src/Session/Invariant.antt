-- ===== src/Session/Invariant.antt =====
-- What holds of the shared state between two calls.
use mi_ster_cast.Prelude.{
  ℕ, ◌≤◌, ◌≡◌, refl, Bool, true, false, Option, none, some, arith, if◌then◌else◌,
}
use mi_ster_cast.Prelude.Fault.{◌>>=◌}
use mi_ster_cast.Modeline.{Modeline, Verdict, mode_ok, rgb888, default_mode}
use mi_ster_cast.Modeline.Classify.{
  IsU16Mode, IsWellFormed, accepted-IsWellFormed, default_accepted,
}
use mi_ster_cast.Prelude.{◌&&◌, ◌∙◌, List, [], ◌∷◌}
use mi_ster_cast.Session.{TickEnd, StreamOptions, StreamWorker, App, Call, set_modeline}
use mi_ster_cast.Session.Globals.{
  take_source, is_none, run_tick, capture_round, fill_buffers, loaded, is_ok, init_video_capture,
  with_defaults,
}

-- Options that the calls can leave behind.
pub record IsOptions (o : StreamOptions) : Type 0 where
  pub near_capped : o.near_level ≤ 3
  pub pack_capped : o.nlc_pack ≤ 2
  pub audio_capped : o.audio_buffer_ms ≤ 200

-- The invariant, over the fields that it reads.
pub record Holds (initialized : Bool) (config : StreamOptions) (selected : Modeline)
    (width height : ℕ) (capture_worker allocated stop_capture : Bool)
    (stream_worker : Option StreamWorker) (stop_stream : Bool) (session : ℕ) : Type 0 where
  pub options : IsOptions config
  pub mode_u16 : IsU16Mode selected
  pub output_wide : width ≡ selected.hactive
  pub output_tall : height ≡ selected.vactive
  pub shaped : initialized ≡ true → IsWellFormed selected
  pub capturing : initialized ≡ true → capture_worker ≡ true
  pub capture_ready : capture_worker ≡ true → allocated ≡ true
  pub capture_runs : capture_worker ≡ true → stop_capture ≡ false
  pub stream_live : (w : StreamWorker) → stream_worker ≡ some w → initialized ≡ true
  pub stream_runs : (w : StreamWorker) → stream_worker ≡ some w → stop_stream ≡ false
  pub stream_newest : (w : StreamWorker) → stream_worker ≡ some w → w.session ≡ session
  pub stream_options : (w : StreamWorker) → stream_worker ≡ some w → IsOptions w.options

-- The options stay in range, the capture output has the size of the selected mode, an initialized
-- library has a well-formed mode and a running capture worker, and a stream worker exists only
-- while it is initialized, has not been told to stop and belongs to the newest session.
abbrev pub IsValid : App → Type 0
IsValid s =
    Holds s.initialized s.stream_config s.selected s.output_width s.output_height s.capture_worker
      s.captures_allocated s.stop_capture s.stream_worker s.stop_stream s.session

-- The arguments fit their C types, as far as the invariant needs.
abbrev pub IsTyped : Call → Type 0
IsTyped (set_modeline m) = IsU16Mode m
IsTyped _ = Unit

pub default-IsWellFormed : IsWellFormed default_mode
default-IsWellFormed = accepted-IsWellFormed default_mode rgb888 false default_accepted

-- The globals are valid before the first call.
pub loaded-IsValid : IsValid loaded
loaded-IsValid = grind arith

pub is_ok-eq : (v : Verdict) → is_ok v ≡ true → v ≡ mode_ok
is_ok-eq v e = ground arith

-- A call that returns keeps the invariant.
abbrev pub Keeps : Option (Bool × App) → Type 0
Keeps none = Unit
Keeps (some r) = IsValid r.1

pub Keeps-if :
    (b : Bool) (x y : Option (Bool × App))
    → (b ≡ true → Keeps x)
    → (b ≡ false → Keeps y)
    → Keeps (if b then x else y)
Keeps-if true x y p q = p refl
Keeps-if false x y p q = q refl

pub IsValid-if :
    (b : Bool) (s t : App)
    → (b ≡ true → IsValid s)
    → (b ≡ false → IsValid t)
    → IsValid (if b then s else t)
IsValid-if true s t p q = p refl
IsValid-if false s t p q = q refl

pub ready-IsValid :
    (log callback : Option ℕ) (s : App)
    → IsValid s
    → IsValid (init_video_capture 0 callback (with_defaults log s))
unfolding init_video_capture with_defaults
ready-IsValid log callback s v = record {
  options = omega arith;
  mode_u16 = omega arith;
  output_wide = refl;
  output_tall = refl;
  shaped = λ i. default-IsWellFormed;
  capturing = v.capturing;
  capture_ready = λ c. refl;
  capture_runs = v.capture_runs;
  stream_live = v.stream_live;
  stream_runs = v.stream_runs;
  stream_newest = v.stream_newest;
  stream_options = v.stream_options;
}

-- What the ticks of the capture leave.
pub record Ticked (s t : App) : Type 0 where
  pub valid : IsValid t
  pub selected : t.selected ≡ s.selected
  pub allocated : s.captures_allocated ≡ true → t.captures_allocated ≡ true

abbrev pub TicksKeep : App → Option App → Type 0
TicksKeep s none = Unit
TicksKeep s (some t) = Ticked s t

rebuilt-IsValid :
    (output : ℕ) (callback : Option ℕ) (s : App)
    → IsValid s
    → IsValid (init_video_capture output callback s)
unfolding init_video_capture
rebuilt-IsValid output callback s v = record {
  options = v.options;
  mode_u16 = v.mode_u16;
  output_wide = v.output_wide;
  output_tall = v.output_tall;
  shaped = v.shaped;
  capturing = v.capturing;
  capture_ready = λ c. refl;
  capture_runs = v.capture_runs;
  stream_live = v.stream_live;
  stream_runs = v.stream_runs;
  stream_newest = v.stream_newest;
  stream_options = v.stream_options;
}

run_tick-keeps : (tick : TickEnd) (s : App) → IsValid s → TicksKeep s (run_tick tick s)
unfolding run_tick take_source init_video_capture
run_tick-keeps TickEnd.idle s v = record { valid = v; selected = refl; allocated = λ a. a }
run_tick-keeps TickEnd.rebuilt s v = record {
  valid = rebuilt-IsValid s.display_index s.capture_function (take_source s) v;
  selected = refl;
  allocated = λ a. refl;
}
run_tick-keeps TickEnd.delivered s v =
    shown ((take_source s).current_source.preview && is_none s.capture_function)
  where
    shown : (null : Bool) → TicksKeep s (if null then none else some (take_source s))
    shown true = tt
    shown false = record { valid = v; selected = refl; allocated = λ a. a }
run_tick-keeps TickEnd.threw s v = tt

pub capture_round-keeps :
    (tick : TickEnd) (s : App) → IsValid s → TicksKeep s (capture_round tick s)
unfolding capture_round take_source
capture_round-keeps TickEnd.idle s v = run_tick-keeps TickEnd.idle s v
capture_round-keeps TickEnd.rebuilt s v = run_tick-keeps TickEnd.rebuilt s v
capture_round-keeps TickEnd.delivered s v = run_tick-keeps TickEnd.delivered s v
capture_round-keeps TickEnd.threw s v = record { valid = v; selected = refl; allocated = λ a. a }

pub fill_buffers-keeps :
    (ticks : List TickEnd) (s : App) → IsValid s → TicksKeep s (fill_buffers ticks s)
unfolding fill_buffers
fill_buffers-keeps [] s v = record { valid = v; selected = refl; allocated = λ a. a }
fill_buffers-keeps (tick ∷ ticks) s v =
    next (run_tick tick s) (run_tick-keeps tick s v) (fill_buffers-keeps ticks)
  where
    both : (t : App) (r : Option App) → Ticked s t → TicksKeep t r → TicksKeep s r
    both t none one rest = tt
    both t (some u) one rest = record {
      valid = rest.valid;
      selected = rest.selected ∙ one.selected;
      allocated = λ a. rest.allocated (one.allocated a);
    }

    next :
        (r : Option App)
        → TicksKeep s r
        → ((t : App) → IsValid t → TicksKeep t (fill_buffers ticks t))
        → TicksKeep s (r >>= fill_buffers ticks)
    next none one later = tt
    next (some t) one later = both t (fill_buffers ticks t) one (later t one.valid)

-- A valid state with the default mode, whose capture worker was just started.
pub started-IsValid :
    (s : App)
    → IsValid s
    → IsWellFormed s.selected
    → s.captures_allocated ≡ true
    → IsValid (record s { stop_capture = false; capture_worker = true; initialized = true })
started-IsValid s v w a = record {
  options = v.options;
  mode_u16 = v.mode_u16;
  output_wide = v.output_wide;
  output_tall = v.output_tall;
  shaped = λ i. w;
  capturing = λ i. refl;
  capture_ready = λ c. a;
  capture_runs = λ c. refl;
  stream_live = λ q e. refl;
  stream_runs = v.stream_runs;
  stream_newest = v.stream_newest;
  stream_options = v.stream_options;
}

-- The state that a restart of the capture leaves, for an initialized library or not.
pub restarted-IsValid :
    (s : App)
    → IsValid s
    → IsValid (record s { captures_allocated = true; stop_capture = false; capture_worker = true })
restarted-IsValid s v = record {
  options = v.options;
  mode_u16 = v.mode_u16;
  output_wide = v.output_wide;
  output_tall = v.output_tall;
  shaped = v.shaped;
  capturing = λ i. refl;
  capture_ready = λ c. refl;
  capture_runs = λ c. refl;
  stream_live = v.stream_live;
  stream_runs = v.stream_runs;
  stream_newest = v.stream_newest;
  stream_options = v.stream_options;
}

-- A capture worker is started only where there was none.
pub Keeps-spawn :
    (b : Bool) (t : App) (k : App → Option (Bool × App))
    → Keeps (k t)
    → Keeps ((if b then none else some t) >>= k)
Keeps-spawn true t k h = tt
Keeps-spawn false t k h = h
