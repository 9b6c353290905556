-- ===== src/CastWorker/Protocol.antt =====
-- The calls of the stream worker against the states of the audio device.
use mi_ster_cast.Prelude.{
  ◌≡◌, refl, Bool, true, false, not, ◌&&◌, ◌||◌, Option, none, some, List, [], ◌∷◌, ◌++◌,
  if◌then◌else◌,
}
use mi_ster_cast.CastWorker.{
  Outcome, Event, Worker, Prepared, attempt_audio, no_audio, prepare, report_after, draw_all,
  stream, stop_if, clean_up_if, cast_screen,
}

-- What the audio device is in, and whether the registered buffer may be referred to.
pub data Device : Type 0 where
  closed : Device
  opened : Device
  running : Device
  stopped : Device

pub record Audio : Type 0 where
  pub device : Device
  pub refers : Bool

abbrev pub at : Device → Bool → Audio
at device refers = record { device = device; refers = refers }

-- What the device allows: it is started once it is open, stopped only if it runs, cleaned up only if
-- it does not run and nobody refers to the buffer; a renderer takes audio exactly while it runs.
unfoldable pub allow : Event → Device → Bool → Option Audio
allow Event.init_audio Device.closed b = some (at Device.opened b)
allow (Event.start_audio true) Device.opened b = some (at Device.running b)
allow (Event.start_audio false) Device.opened b = some (at Device.opened b)
allow (Event.create_renderer true) Device.running b = some (at Device.running true)
allow (Event.create_renderer false) Device.opened b = some (at Device.opened true)
allow (Event.create_renderer false) Device.closed b = some (at Device.closed true)
allow (Event.draw true) Device.running true = some (at Device.running true)
allow (Event.draw false) Device.opened true = some (at Device.opened true)
allow (Event.draw false) Device.closed true = some (at Device.closed true)
allow Event.report_audio Device.running b = some (at Device.running b)
allow Event.stop_audio Device.running b = some (at Device.stopped b)
allow Event.report_audio_last Device.stopped b = some (at Device.stopped b)
allow Event.forget_buffer Device.closed b = some (at Device.closed false)
allow Event.forget_buffer Device.opened b = some (at Device.opened false)
allow Event.forget_buffer Device.stopped b = some (at Device.stopped false)
allow Event.cleanup_audio Device.opened false = some (at Device.closed false)
allow Event.cleanup_audio Device.stopped false = some (at Device.closed false)
allow _ _ _ = none

unfoldable pub follow : List Event → Option Audio → Option Audio
follow [] a = a
follow (e ∷ events) none = none
follow (e ∷ events) (some a) = follow events (allow e a.device a.refers)

-- The device that goes with `audioStarted` and `audioInitAttempted`.
data Goes : Bool → Bool → Device → Type 0 where
  runs : Goes true true Device.running
  idles : Goes false true Device.opened
  sleeps : Goes false false Device.closed

abbrev ending : Bool → Bool → List Event
ending started attempted = stop_if started ++ (Event.forget_buffer ∷ clean_up_if attempted)

-- The calls, from this state of the device, end with everything given back.
abbrev pub GivesBack : List Event → Audio → Type 0
GivesBack events a = follow events (some a) ≡ some (at Device.closed false)

ending-GivesBack :
    {s a : Bool} {d : Device} → Goes s a d → (b : Bool) → GivesBack (ending s a) (at d b)
unfolding follow allow stop_if clean_up_if
ending-GivesBack Goes.runs b = refl
ending-GivesBack Goes.idles b = refl
ending-GivesBack Goes.sleeps b = refl

draw_all-GivesBack :
    {s a : Bool} {d : Device}
    → Goes s a d
    → (draws : List Bool) → GivesBack (draw_all s draws ++ ending s a) (at d true)
unfolding follow allow draw_all report_after
draw_all-GivesBack g [] = ending-GivesBack g true
draw_all-GivesBack Goes.runs (true ∷ draws) = ending-GivesBack Goes.runs true
draw_all-GivesBack Goes.idles (true ∷ draws) = ending-GivesBack Goes.idles true
draw_all-GivesBack Goes.sleeps (true ∷ draws) = ending-GivesBack Goes.sleeps true
draw_all-GivesBack Goes.runs (false ∷ draws) = draw_all-GivesBack Goes.runs draws
draw_all-GivesBack Goes.idles (false ∷ draws) = draw_all-GivesBack Goes.idles draws
draw_all-GivesBack Goes.sleeps (false ∷ draws) = draw_all-GivesBack Goes.sleeps draws

create-GivesBack :
    {s a : Bool} {d : Device}
    → Goes s a d
    → (events : List Event) → GivesBack events (at d true)
    → GivesBack (Event.create_renderer s ∷ events) (at d false)
unfolding follow allow
create-GivesBack Goes.runs events e = e
create-GivesBack Goes.idles events e = e
create-GivesBack Goes.sleeps events e = e

stream-GivesBack :
    (w : Worker) {s a : Bool} {d : Device}
    → Goes s a d
    → GivesBack (stream w s ++ ending s a) (at d false)
unfolding stream
stream-GivesBack w {s} {a} {d} g = create-GivesBack g _ (split w.renderer_throws)
  where
    split :
        (throws : Bool)
        → GivesBack ((if throws then [] else draw_all s w.draws) ++ ending s a) (at d true)
    split true = ending-GivesBack g true
    split false = draw_all-GivesBack g w.draws

-- What follows the audio block.
abbrev rest : Worker → Prepared → List Event
rest w p =
    (if p.has_thrown || w.stopped_before_renderer then [] else stream w p.audio_started)
    ++ ending p.audio_started p.audio_init_attempted

rest-GivesBack :
    (w : Worker) (p : Prepared) {d : Device}
    → Goes p.audio_started p.audio_init_attempted d
    → GivesBack (rest w p) (at d false)
rest-GivesBack w p {d} g = split (p.has_thrown || w.stopped_before_renderer)
  where
    split :
        (over : Bool)
        → GivesBack
            ((if over then [] else stream w p.audio_started)
              ++ ending p.audio_started p.audio_init_attempted)
            (at d false)
    split true = ending-GivesBack g false
    split false = stream-GivesBack w g

attempt-GivesBack :
    (w : Worker) (init start : Outcome)
    → let p = attempt_audio init start in GivesBack (p.calls ++ rest w p) (at Device.closed false)
unfolding follow allow attempt_audio
attempt-GivesBack w Outcome.threw start =
    rest-GivesBack w (attempt_audio Outcome.threw start) Goes.idles
attempt-GivesBack w (Outcome.answered false) start =
    rest-GivesBack w (attempt_audio (Outcome.answered false) start) Goes.idles
attempt-GivesBack w (Outcome.answered true) (Outcome.answered true) =
    rest-GivesBack w (attempt_audio (Outcome.answered true) (Outcome.answered true)) Goes.runs
attempt-GivesBack w (Outcome.answered true) (Outcome.answered false) =
    rest-GivesBack w (attempt_audio (Outcome.answered true) (Outcome.answered false)) Goes.idles
attempt-GivesBack w (Outcome.answered true) Outcome.threw =
    rest-GivesBack w (attempt_audio (Outcome.answered true) Outcome.threw) Goes.idles

-- Whatever the worker's calls answer, and whether `InitAudioCapture`, `StartAudioCapture`, the
-- renderer's constructor or a draw throws: the audio device is opened, started, stopped and cleaned
-- up in this order only, the renderer and its draws take audio exactly while it runs, and at the end
-- the device is closed and `audioBuffer` refers to nothing.
pub cast_screen-GivesBack : (w : Worker) → GivesBack (cast_screen w) (at Device.closed false)
unfolding cast_screen prepare
cast_screen-GivesBack w = split (w.source_audio && not w.stopped_before_audio)
  where
    split :
        (wanted : Bool)
        → let p = if wanted then attempt_audio w.init_outcome w.start_outcome else no_audio in
          GivesBack (p.calls ++ rest w p) (at Device.closed false)
    split true = attempt-GivesBack w w.init_outcome w.start_outcome
    split false = rest-GivesBack w no_audio Goes.sleeps
