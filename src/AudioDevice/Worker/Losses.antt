-- ===== src/AudioDevice/Worker/Losses.antt =====
-- What an exception of the log line in `LogAudioEndpoint` loses, over the calls of the worker.
use mi_ster_cast.Prelude.{
  ◌≡◌, refl, Bool, true, false, not, ◌&&◌, ◌||◌, List, [], ◌∷◌, ◌++◌, if◌then◌else◌, ◌∙◌,
}
use mi_ster_cast.CastWorker.{
  Outcome, Event, Worker, Prepared, attempt_audio, no_audio, prepare, report_after, draw_all,
  stream, stop_if, clean_up_if, cast_screen,
}
use mi_ster_cast.AudioDevice.Accounts.{Before, lose}
use mi_ster_cast.AudioDevice.Worker.{Answers}
use mi_ster_cast.AudioDevice.Worker.Serves.{kept}

-- What the system keeps after the calls.
unfoldable pub kept_by : Answers → List Event → Before → Before
kept_by a [] b = b
kept_by a (e ∷ events) b = kept_by a events (kept a e b)

-- The only loss is that of the initialization.
module _ (a : Answers) where
  kept_by-append :
      (xs ys : List Event) (b : Before) → kept_by a (xs ++ ys) b ≡ kept_by a ys (kept_by a xs b)
  unfolding kept_by
  kept_by-append [] ys b = refl
  kept_by-append (x ∷ xs) ys b = kept_by-append xs ys (kept a x b)

  kept_by-attempt :
      (init start : Outcome) (b : Before)
      → kept_by a (attempt_audio init start).calls b ≡ lose a.init b
  unfolding kept_by attempt_audio
  kept_by-attempt Outcome.threw start b = refl
  kept_by-attempt (Outcome.answered false) start b = refl
  kept_by-attempt (Outcome.answered true) (Outcome.answered true) b = refl
  kept_by-attempt (Outcome.answered true) (Outcome.answered false) b = refl
  kept_by-attempt (Outcome.answered true) Outcome.threw b = refl

  kept_by-draw_all :
      (audio : Bool) (draws : List Bool) (b : Before) → kept_by a (draw_all audio draws) b ≡ b
  unfolding kept_by draw_all report_after
  kept_by-draw_all audio [] b = refl
  kept_by-draw_all audio (true ∷ draws) b = refl
  kept_by-draw_all false (false ∷ draws) b = kept_by-draw_all false draws b
  kept_by-draw_all true (false ∷ draws) b = kept_by-draw_all true draws b

  kept_by-ending :
      (started attempted : Bool) (b : Before)
      → kept_by a (stop_if started ++ (Event.forget_buffer ∷ clean_up_if attempted)) b ≡ b
  unfolding kept_by stop_if clean_up_if
  kept_by-ending false false b = refl
  kept_by-ending false true b = refl
  kept_by-ending true false b = refl
  kept_by-ending true true b = refl

  kept_by-stream : (w : Worker) (audio : Bool) (b : Before) → kept_by a (stream w audio) b ≡ b
  unfolding kept_by stream
  kept_by-stream w audio b = split w.renderer_throws
    where
      split : (throws : Bool) → kept_by a (if throws then [] else draw_all audio w.draws) b ≡ b
      split true = refl
      split false = kept_by-draw_all audio w.draws b

  pub kept_by-cast_screen :
      (w : Worker) (b : Before)
      → kept_by a (cast_screen w) b
        ≡ (if w.source_audio && not w.stopped_before_audio then lose a.init b else b)
  unfolding cast_screen prepare kept_by
  kept_by-cast_screen w b =
      kept_by-append p.calls (streamed ++ ending) b
      ∙ kept_by-append streamed ending _
      ∙ kept_by-ending p.audio_started p.audio_init_attempted _
      ∙ over (p.has_thrown || w.stopped_before_renderer) _
      ∙ wanted (w.source_audio && not w.stopped_before_audio)
    where
      p : Prepared
      p = prepare w

      streamed : List Event
      streamed = if p.has_thrown || w.stopped_before_renderer then [] else stream w p.audio_started

      ending : List Event
      ending = stop_if p.audio_started ++ (Event.forget_buffer ∷ clean_up_if p.audio_init_attempted)

      over : (q : Bool) (x : Before) → kept_by a (if q then [] else stream w p.audio_started) x ≡ x
      over true x = refl
      over false x = kept_by-stream w p.audio_started x

      wanted :
          (q : Bool)
          → kept_by a (if q then attempt_audio w.init_outcome w.start_outcome else no_audio).calls b
            ≡ (if q then lose a.init b else b)
      wanted true = kept_by-attempt w.init_outcome w.start_outcome b
      wanted false = refl
