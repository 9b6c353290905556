-- ===== src/Session/Ticks.antt =====
-- Which ticks end the process, and that a tick leaves the worker alone.
use mi_ster_cast.Prelude.{
  ◌≡◌, refl, Bool, true, false, ◌&&◌, ◌||◌, Option, none, some, List, [], ◌∷◌, if◌then◌else◌, ap,
  ◌∙◌,
}
use mi_ster_cast.Prelude.Fault.{◌>>=◌}
use mi_ster_cast.Session.{App, TickEnd}
use mi_ster_cast.Session.Globals.{
  is_none, take_source, run_tick, fill_buffers, init_video_capture, first_source,
}

-- A tick that calls the callback, which is null or not, or throws.
abbrev pub calls_null : Bool → TickEnd → Bool
calls_null no_callback TickEnd.delivered = no_callback
calls_null no_callback _ = false

abbrev pub throws : TickEnd → Bool
throws TickEnd.threw = true
throws _ = false

abbrev pub is_fatal : Bool → TickEnd → Bool
is_fatal no_callback tick = throws tick || calls_null no_callback tick

abbrev pub any_fatal : Bool → List TickEnd → Bool
any_fatal no_callback [] = false
any_fatal no_callback (tick ∷ ticks) = is_fatal no_callback tick || any_fatal no_callback ticks

pub fill_buffers-fatal :
    (ticks : List TickEnd) (s : App) (no_callback : Bool)
    → (is_none s.capture_function && (take_source s).current_source.preview) ≡ no_callback
    → s.captures_allocated ≡ true
    → is_none (fill_buffers ticks s) ≡ any_fatal no_callback ticks
unfolding fill_buffers run_tick take_source init_video_capture
fill_buffers-fatal [] s b e a = refl
fill_buffers-fatal (TickEnd.idle ∷ ticks) s b e a = fill_buffers-fatal ticks (take_source s) b e a
fill_buffers-fatal (TickEnd.rebuilt ∷ ticks) s b e a =
    fill_buffers-fatal ticks (init_video_capture s.display_index s.capture_function (take_source s))
      b
      (ap
          (λ there.
            is_none s.capture_function
            && (if there then (take_source s).current_source else first_source).preview)
          a
        ∙ e)
      refl
fill_buffers-fatal (TickEnd.delivered ∷ ticks) s b e a =
    shown (take_source s).current_source.preview (is_none s.capture_function) e
      (fill_buffers-fatal ticks (take_source s) b e a)
  where
    shown :
        (wanted absent : Bool)
        → (absent && wanted) ≡ b
        → is_none (fill_buffers ticks (take_source s)) ≡ any_fatal b ticks
        → is_none ((if wanted && absent then none else some (take_source s)) >>= fill_buffers ticks)
          ≡ (b || any_fatal b ticks)
    shown true true e rest = ap (λ x. x || any_fatal b ticks) e
    shown true false e rest = rest ∙ ap (λ x. x || any_fatal b ticks) e
    shown false true e rest = rest ∙ ap (λ x. x || any_fatal b ticks) e
    shown false false e rest = rest ∙ ap (λ x. x || any_fatal b ticks) e
fill_buffers-fatal (TickEnd.threw ∷ ticks) s b e a = refl

-- The ticks leave `captureScreenTask` alone.
abbrev pub Leaves : Bool → Option App → Type 0
Leaves worker none = Unit
Leaves worker (some t) = t.capture_worker ≡ worker

run_tick-Leaves : (tick : TickEnd) (s : App) → Leaves s.capture_worker (run_tick tick s)
unfolding run_tick take_source init_video_capture
run_tick-Leaves TickEnd.idle s = refl
run_tick-Leaves TickEnd.rebuilt s = refl
run_tick-Leaves TickEnd.delivered s =
    shown ((take_source s).current_source.preview && is_none s.capture_function)
  where
    shown : (b : Bool) → Leaves s.capture_worker (if b then none else some (take_source s))
    shown true = tt
    shown false = refl
run_tick-Leaves TickEnd.threw s = tt

pub fill_buffers-Leaves :
    (ticks : List TickEnd) (s : App) (worker : Bool)
    → s.capture_worker ≡ worker
    → Leaves worker (fill_buffers ticks s)
unfolding fill_buffers
fill_buffers-Leaves [] s worker e = e
fill_buffers-Leaves (tick ∷ ticks) s worker e =
    next (run_tick tick s) (run_tick-Leaves tick s) (fill_buffers-Leaves ticks)
  where
    next :
        (r : Option App)
        → Leaves s.capture_worker r
        → ((t : App) (w : Bool) → t.capture_worker ≡ w → Leaves w (fill_buffers ticks t))
        → Leaves worker (r >>= fill_buffers ticks)
    next none l later = tt
    next (some t) l later = later t worker (l ∙ e)
