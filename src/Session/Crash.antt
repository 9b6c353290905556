-- ===== src/Session/Crash.antt =====
-- When a call of the interface, or a round of the capture worker, ends the process.
use mi_ster_cast.Prelude.{
  ℕ, ◌≡◌, ◌≢◌, inl, inr, refl, Bool, true, false, not, ◌&&◌, ◌||◌, Option, none, some, List, [],
  ◌∷◌, arith, ◌==◌, Bool-cases, if◌then◌else◌, ap, ◌∙◌,
}
use mi_ster_cast.Prelude.Fault.{◌>>=◌}
use mi_ster_cast.Prelude.Int.{ℤ}
use mi_ster_cast.Session.{
  App, Env, TickEnd, null, empty, address, Call, initialize, shutdown, start_stream, stop_stream,
  set_stream_options, set_audio_buffer_ms, set_modeline, set_source, set_capture_window,
  capture_tick,
}
use mi_ster_cast.Session.Globals.{
  is_none, take_source, run_tick, capture_round, fill_buffers, init_video_capture, with_defaults,
  first_source, spawn_capture,
}
use mi_ster_cast.Session.Ticks.{
  calls_null, any_fatal, fill_buffers-fatal, Leaves, fill_buffers-Leaves,
}
use mi_ster_cast.Session.Calls.{run_initialize, step, run}

-- The preview is wanted: by the published options, or else by those in force, which the first
-- allocation of the buffers resets.
abbrev pub wants_preview : App → Bool
wants_preview s =
    if s.has_new_source
    then s.new_source.preview
    else s.captures_allocated && s.current_source.preview

-- The calls that end the process: an initialization that starts a second capture worker, or that has
-- an exception or a preview without a callback in one of its ticks; and a round of the worker with a
-- preview without a callback.
abbrev pub ends_process : Env → Call → App → Bool
ends_process env (initialize log callback) s =
    let no_callback = is_none callback && wants_preview s in
    not s.initialized
    && env.capture_starts
    && (s.capture_worker || any_fatal no_callback (env.tick 0 ∷ env.tick 1 ∷ env.tick 2 ∷ []))
ends_process env capture_tick s =
    s.capture_worker
    && calls_null (is_none s.capture_function && (take_source s).current_source.preview)
        (env.tick 0)
ends_process env c s = false

initialize-ends :
    (env : Env) (log callback : Option ℕ) (s : App)
    → is_none (run_initialize env log callback s) ≡ ends_process env (initialize log callback) s
unfolding run_initialize spawn_capture
initialize-ends env log callback s = split s.initialized env.capture_starts
  where
    ready : App
    ready = init_video_capture 0 callback (with_defaults log s)

    ticks : List TickEnd
    ticks = env.tick 0 ∷ env.tick 1 ∷ env.tick 2 ∷ []

    start : App → Option (Bool × App)
    start t = some (true, record t { initialized = true })

    no_callback : Bool
    no_callback = is_none callback && wants_preview s

    taken : (is_none callback && (take_source ready).current_source.preview) ≡ no_callback
    taken = ap (λ x. is_none callback && x) (seen s.has_new_source s.captures_allocated)
      where
        seen :
            (new there : Bool)
            → (if new
                then s.new_source
                else record (if there then s.current_source else first_source) {
                  window_handle = s.source_config.window_handle;
                }).preview
              ≡ (if new then s.new_source.preview else (there && s.current_source.preview))
        seen true there = refl
        seen false true = refl
        seen false false = refl

    spawned : (b : Bool) (t : App) → is_none ((if b then none else some t) >>= start) ≡ b
    spawned true t = refl
    spawned false t = refl

    begun :
        (r : Option App)
        → Leaves s.capture_worker r
        → is_none (r >>= spawn_capture >>= start) ≡ (s.capture_worker || is_none r)
    begun none l = ground arith
    begun (some t) l = spawned t.capture_worker _ ∙ l ∙ ground arith

    split :
        (live starts : Bool)
        → is_none (
            if live
            then some (true, s)
            else if not starts
            then some (false, ready)
            else (fill_buffers ticks ready >>= spawn_capture >>= start))
          ≡ (not live && starts && (s.capture_worker || any_fatal no_callback ticks))
    split true starts = refl
    split false false = refl
    split false true =
        begun (fill_buffers ticks ready) (fill_buffers-Leaves ticks ready s.capture_worker refl)
        ∙ ap (λ x. s.capture_worker || x) (fill_buffers-fatal ticks ready no_callback taken refl)

round-ends :
    (env : Env) (s : App) → is_none (step env capture_tick s) ≡ ends_process env capture_tick s
unfolding step capture_round run_tick take_source
round-ends env s = split s.capture_worker (tick-ends (env.tick 0))
  where
    null_shown : Bool
    null_shown = is_none s.capture_function && (take_source s).current_source.preview

    shown :
        (wanted absent : Bool) (t : App)
        → is_none {A = Bool × App}
            ((if wanted && absent then none else some t) >>= λ u. some (true, u))
          ≡ (absent && wanted)
    shown true true t = refl
    shown true false t = refl
    shown false true t = refl
    shown false false t = refl

    tick-ends :
        (tick : TickEnd)
        → is_none {A = Bool × App} (capture_round tick s >>= λ t. some (true, t))
          ≡ calls_null null_shown tick
    tick-ends TickEnd.idle = refl
    tick-ends TickEnd.rebuilt = refl
    tick-ends TickEnd.delivered =
        shown (take_source s).current_source.preview (is_none s.capture_function) (take_source s)
    tick-ends TickEnd.threw = refl

    split :
        (worker : Bool)
        → is_none {A = Bool × App} (capture_round (env.tick 0) s >>= λ t. some (true, t))
          ≡ calls_null null_shown (env.tick 0)
        → is_none {A = Bool × App} (
            if worker
            then (capture_round (env.tick 0) s >>= λ t. some (true, t))
            else some (true, s))
          ≡ (worker && calls_null null_shown (env.tick 0))
    split true e = e
    split false e = refl

-- Every other call returns.
others-return :
    (env : Env) (c : Call) (s : App)
    → ((log callback : Option ℕ) → c ≢ initialize log callback)
    → c ≢ capture_tick
    → is_none (step env c s) ≡ false
unfolding step
others-return env (initialize log callback) s n m = absurd (n log callback refl)
others-return env shutdown s n m = refl
others-return env (start_stream null) s n m = refl
others-return env (start_stream empty) s n m = refl
others-return env (start_stream (address a)) s n m = ground arith
others-return env stop_stream s n m = refl
others-return env (set_stream_options codec pack near rgb mtu auto verbose allow) s n m = refl
others-return env (set_audio_buffer_ms ms) s n m = ground arith
others-return env (set_modeline mode) s n m = ground arith
others-return env (set_source d a p al c xc yc xo yo r) s n m = ground arith
others-return env (set_capture_window h) s n m = ground arith
others-return env capture_tick s n m = absurd (m refl)

none_lem :
    {A : Type 0} (r : Option A) (b : Bool)
    → is_none r ≡ b
    → (r ≡ none → b ≡ true) × (b ≡ true → r ≡ none)
none_lem none b e = (λ n. ground arith, λ t. refl)
none_lem (some a) b e = (λ n. cc, λ t. ground (arith, e, t))

-- A call of the interface, or a round of the capture worker, ends the process in these cases only: an
-- initialization of a library that is not initialized, where the capture starts, if a capture worker
-- exists already, whose thread the assignment destroys, or if one of the three ticks throws or has a
-- frame for a preview without a callback; and a round of the worker with such a frame.
pub terminates_iff :
    (env : Env) (c : Call) (s : App)
    → (step env c s ≡ none → ends_process env c s ≡ true)
      × (ends_process env c s ≡ true → step env c s ≡ none)
unfolding step
terminates_iff env (initialize log callback) s =
    none_lem (run_initialize env log callback s) _ (initialize-ends env log callback s)
terminates_iff env capture_tick s = none_lem (step env capture_tick s) _ (round-ends env s)
terminates_iff env c s =
    none_lem (step env c s) false (others-return env c s (λ log callback q. cc) (λ q. cc))

-- A capture worker of a library that is not initialized.
abbrev Spawned : Option (Bool × App) → Type 0
Spawned none = Unit
Spawned (some q) = (q.1.initialized ≡ false) × (q.1.capture_worker ≡ true)

source-Spawned :
    (env : Env) (display alignment cropmode xcrop ycrop rotation : ℕ) (audio preview : Bool)
    (xoffset yoffset : ℤ) (s : App)
    → s.initialized ≡ false
    → (s.display_index == display) ≡ false
    → Spawned (
        step env
          (set_source display audio preview alignment cropmode xcrop ycrop xoffset yoffset rotation)
          s)
unfolding step
source-Spawned env display alignment cropmode xcrop ycrop rotation audio preview xoffset yoffset s
      fresh differs =
    rw differs (fresh, refl)

-- Such a state is within reach: on a library that is not initialized and has no workers, `SetSource`
-- with another display than the current one starts a capture worker, and a successful `Initialize`
-- after it ends the process, whatever the other arguments are.
pub set_source-initialize_terminates :
    (env : Env) (display alignment cropmode xcrop ycrop rotation : ℕ) (audio preview : Bool)
    (xoffset yoffset : ℤ) (log callback : Option ℕ) (s : App)
    → s.initialized ≡ false
    → s.display_index ≢ display
    → env.capture_starts ≡ true
    → run
        ((
          env,
          set_source display audio preview alignment cropmode xcrop ycrop xoffset yoffset rotation,
        )
          ∷ (env, initialize log callback)
          ∷ [])
        s
      ≡ none
unfolding run
set_source-initialize_terminates env display alignment cropmode xcrop ycrop rotation audio preview
      xoffset yoffset log callback s fresh other starts =
    ended
      (step env
        (set_source display audio preview alignment cropmode xcrop ycrop xoffset yoffset rotation)
        s)
      (elim (Bool-cases (s.display_index == display)) [
        | inl same ↦ absurd (other (ground arith))
        | inr differs ↦
            source-Spawned env display alignment cropmode xcrop ycrop rotation audio preview xoffset
              yoffset s fresh differs
      ])
  where
    ended :
        (r : Option (Bool × App))
        → Spawned r
        → (r >>= λ q. run ((env, initialize log callback) ∷ []) q.1) ≡ none
    ended none p = refl
    ended (some q) p =
        ap (λ r. r >>= λ u. run [] u.1)
          ((terminates_iff env (initialize log callback) q.1).1 (rw (p.0, starts, p.1) refl))
