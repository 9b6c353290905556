-- ===== src/AudioDevice/Worker.antt =====
-- The calls of the stream worker on the audio device: what `cast_screen` does in its order, the
-- device's operations do on their pointers.
pub mod Losses
pub mod Serves
pub mod Returns
use mi_ster_cast.Prelude.{
  ℕ, ◌≡◌, ◌≢◌, refl, sym, Bool, true, false, not, ◌&&◌, ◌||◌, Option, none, some, List, [], ◌∷◌,
  ◌++◌, length, arith, if◌then◌else◌,
}
use mi_ster_cast.Prelude.Steps.{◌then_run◌, use_of, attempt, Ends, taken}
use mi_ster_cast.CastWorker.{
  Outcome, Event, Worker, Prepared, attempt_audio, no_audio, prepare, report_after, draw_all,
  stream, stop_if, clean_up_if, cast_screen,
}
use mi_ster_cast.CastWorker.Protocol.{Device, Audio, at, allow, follow, cast_screen-GivesBack}
use mi_ster_cast.AudioDevice.{
  Client, ClientOp, InitAnswers, init_audio_capture, ClientAnswers, start_audio_capture,
  stop_audio_capture, cleanup_audio_capture,
}
use mi_ster_cast.AudioDevice.Accounts.{
  Before, Owned, Returned, opens, has_usable_format, Opened, init-Opened, cleanup-Returned,
}

-- The thread of the worker and what the system answers. `registers` and `ticks` tell whether a draw
-- comes to register the buffer of the Groovy client, and to `TickAudioCapture`; a draw is named by
-- the number of calls after it.
pub record Answers : Type 0 where
  pub thread : ℕ
  pub init : InitAnswers
  pub start : ClientAnswers
  pub stop : Bool
  pub registers : ℕ → Bool
  pub ticks : ℕ → Bool

-- The use of the capture client by a draw.
pub use_audio : Bool → Bool → Bool → ClientOp
use_audio registers ticks audio c =
    let c' = record c { buffer = registers || c.buffer } in
    if audio && ticks then use_of (λ c. c.capture_client) c' else some (true, c')

-- One call of the worker. An exception in `StartAudioCapture` comes from a log line, where the device
-- is as if the next call had failed; those of `InitAudioCapture` are among its answers.
pub perform : Answers → ℕ → Event → ClientOp
unfolding use_audio
perform a left Event.init_audio c = init_audio_capture a.thread a.init c
perform a left (Event.start_audio started) c = start_audio_capture a.start c
perform a left (Event.create_renderer audio) c = some (true, c)
perform a left (Event.draw audio) c = use_audio (a.registers left) (a.ticks left) audio c
perform a left Event.report_audio c = some (true, c)
perform a left Event.stop_audio c = stop_audio_capture a.stop c
perform a left Event.report_audio_last c = some (true, c)
perform a left Event.forget_buffer c = some (true, record c { buffer = false })
perform a left Event.cleanup_audio c = some (true, cleanup_audio_capture a.thread c)

-- The calls one after the other.
pub perform_all : Answers → List Event → Client → Option Client
unfolding perform
perform_all a [] c = some c
perform_all a (e ∷ events) c = elim (perform a (length events) e c) [
  | none ↦ none
  | some (ok, c') ↦ perform_all a events c'
]

-- Audio capture comes to run, and a usable format feeds it.
abbrev pub starts : Answers → Bool
starts a = opens a.init && has_usable_format a.init && a.start.reset && a.start.start
