-- ===== src/CastWorker/Tests.antt =====
-- A worker whose second draw throws, with audio.
use mi_ster_cast.Prelude.{◌≡◌, refl, true, false, some, [], ◌∷◌}
use mi_ster_cast.CastWorker.{
  Outcome, Event, Worker, attempt_audio, prepare, report_after, draw_all, stream, stop_if,
  clean_up_if, cast_screen,
}
use mi_ster_cast.CastWorker.Protocol.{Device, at, follow, cast_screen-GivesBack}

abbrev worker : Worker
worker = record {
  source_audio = true;
  stopped_before_audio = false;
  stopped_before_renderer = false;
  init_outcome = Outcome.answered true;
  start_outcome = Outcome.answered true;
  renderer_throws = false;
  draws = false ∷ true ∷ false ∷ [];
}

worker_calls :
    cast_screen worker
    ≡ Event.init_audio
      ∷ Event.start_audio true
      ∷ Event.create_renderer true
      ∷ Event.draw true
      ∷ Event.report_audio
      ∷ Event.draw true
      ∷ Event.stop_audio
      ∷ Event.report_audio_last
      ∷ Event.forget_buffer
      ∷ Event.cleanup_audio
      ∷ []
unfolding cast_screen prepare attempt_audio stream draw_all report_after stop_if clean_up_if
worker_calls = refl

cast_screen-GivesBack_example :
    follow (cast_screen worker) (some (at Device.closed false)) ≡ some (at Device.closed false)
cast_screen-GivesBack_example = cast_screen-GivesBack worker
