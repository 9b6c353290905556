-- ===== src/CastWorker.antt =====
-- `cast_screen` of MiSTerCastLib.cpp, the stream worker: what it calls, in which order, whatever its
-- calls answer and wherever a `std::exception` ends it. The log lines and the priority of the thread
-- are left out.
pub mod Protocol
mod Tests
use mi_ster_cast.Prelude.{Bool, true, false, not, ◌&&◌, ◌||◌, List, [], ◌∷◌, ◌++◌, if◌then◌else◌}

-- How a call ends that answers with a Boolean.
pub data Outcome : Type 0 where
  answered : Bool → Outcome
  threw : Outcome

-- The calls of the worker. `start_audio` has the answer of `StartAudioCapture`, `create_renderer` and
-- `draw` have `source.audio`, and `forget_buffer` is `audioBuffer = nullptr`.
pub data Event : Type 0 where
  init_audio : Event
  start_audio : Bool → Event
  create_renderer : Bool → Event
  draw : Bool → Event
  report_audio : Event
  stop_audio : Event
  report_audio_last : Event
  forget_buffer : Event
  cleanup_audio : Event

-- What the worker finds: its argument `source.audio`, `stopStream` at the two tests before the loop,
-- and how the calls end. `draws` has the rounds of the loop until `stopStream` is set; `true` is a
-- draw that throws.
pub record Worker : Type 0 where
  pub source_audio : Bool
  pub stopped_before_audio : Bool
  pub stopped_before_renderer : Bool
  pub init_outcome : Outcome
  pub start_outcome : Outcome
  pub renderer_throws : Bool
  pub draws : List Bool

-- What the audio block leaves: `audioStarted`, `audioInitAttempted`, and whether an exception left it.
pub record Prepared : Type 0 where
  pub calls : List Event
  pub audio_started : Bool
  pub audio_init_attempted : Bool
  pub has_thrown : Bool

-- `if (InitAudioCapture()) audioStarted = StartAudioCapture();`
unfoldable pub attempt_audio : Outcome → Outcome → Prepared
attempt_audio Outcome.threw start = record {
  calls = Event.init_audio ∷ [];
  audio_started = false;
  audio_init_attempted = true;
  has_thrown = true;
}
attempt_audio (Outcome.answered false) start = record {
  calls = Event.init_audio ∷ [];
  audio_started = false;
  audio_init_attempted = true;
  has_thrown = false;
}
attempt_audio (Outcome.answered true) (Outcome.answered started) = record {
  calls = Event.init_audio ∷ Event.start_audio started ∷ [];
  audio_started = started;
  audio_init_attempted = true;
  has_thrown = false;
}
attempt_audio (Outcome.answered true) Outcome.threw = record {
  calls = Event.init_audio ∷ Event.start_audio false ∷ [];
  audio_started = false;
  audio_init_attempted = true;
  has_thrown = true;
}

abbrev pub no_audio : Prepared
no_audio = record {
  calls = [];
  audio_started = false;
  audio_init_attempted = false;
  has_thrown = false;
}

-- The audio block.
unfoldable pub prepare : Worker → Prepared
prepare w =
    if w.source_audio && not w.stopped_before_audio
    then attempt_audio w.init_outcome w.start_outcome
    else no_audio

unfoldable pub report_after : Bool → List Event → List Event
report_after false calls = calls
report_after true calls = Event.report_audio ∷ calls

-- The loop of the draws.
unfoldable pub draw_all : Bool → List Bool → List Event
draw_all audio [] = []
draw_all audio (true ∷ draws) = Event.draw audio ∷ []
draw_all audio (false ∷ draws) = Event.draw audio ∷ report_after audio (draw_all audio draws)

-- The renderer and its loop.
unfoldable pub stream : Worker → Bool → List Event
stream w audio =
    Event.create_renderer audio ∷ (if w.renderer_throws then [] else draw_all audio w.draws)

unfoldable pub stop_if : Bool → List Event
stop_if false = []
stop_if true = Event.stop_audio ∷ Event.report_audio_last ∷ []

unfoldable pub clean_up_if : Bool → List Event
clean_up_if false = []
clean_up_if true = Event.cleanup_audio ∷ []

-- `cast_screen`
unfoldable pub cast_screen : Worker → List Event
cast_screen w =
    let prepared = prepare w in
    let streamed =
      if prepared.has_thrown || w.stopped_before_renderer
      then []
      else stream w prepared.audio_started in
    prepared.calls
    ++ (streamed
        ++ (stop_if prepared.audio_started
            ++ (Event.forget_buffer ∷ clean_up_if prepared.audio_init_attempted)))
