-- ===== src/AudioDevice/Worker/Serves.antt =====
-- Every call of the worker that its protocol allows is one that the device can serve.
use mi_ster_cast.Prelude.{
  ℕ, ◌≡◌, ◌≢◌, refl, Bool, true, false, ◌&&◌, ◌||◌, Option, none, some, List, [], ◌∷◌, arith,
  if◌then◌else◌,
}
use mi_ster_cast.Prelude.Steps.{◌then_run◌, attempt, Ends, taken}
use mi_ster_cast.CastWorker.{Event}
use mi_ster_cast.CastWorker.Protocol.{Device, Audio, at, allow}
use mi_ster_cast.AudioDevice.{
  Client, init_audio_capture, start_audio_capture, stop_audio_capture, cleanup_audio_capture,
}
use mi_ster_cast.AudioDevice.Accounts.{
  Before, lose, Owned, Returned, Opened, init-Opened, cleanup-Returned,
}
use mi_ster_cast.AudioDevice.Worker.{Answers, use_audio, perform, starts}

-- A worker that has had the answer true from `StartAudioCapture` had it from this device.
abbrev pub IsConsistent : Bool → Event → Type 0
IsConsistent ok (Event.start_audio true) = ok ≡ true
IsConsistent ok _ = Unit

abbrev pub AllConsistent : Bool → List Event → Type 0
AllConsistent ok [] = Unit
AllConsistent ok (e ∷ events) = IsConsistent ok e × AllConsistent ok events

-- What the device is in, for each state of the protocol.
pub record IsOpen (a : Answers) (b : Before) (c : Client) : Type 0 where
  pub owned : Owned a.thread b c
  pub capture_client : starts a ≡ true → c.capture_client ≡ true
  pub client : starts a ≡ true → c.client ≡ true
  pub format_usable : starts a ≡ true → c.format_usable ≡ true

abbrev pub Stands : Answers → Before → Device → Client → Type 0
Stands a b Device.closed c = Returned b c
Stands a b Device.opened c = IsOpen a b c
Stands a b Device.running c = IsOpen a b c × (starts a ≡ true)
Stands a b Device.stopped c = IsOpen a b c

abbrev pub Simulates : Answers → Before → Audio → Client → Type 0
Simulates a b s c = Stands a b s.device c × (s.refers ≡ false → c.buffer ≡ false)

abbrev pub Performed : Answers → Before → Option Audio → Option (Bool × Client) → Type 0
Performed a b none r = Unit
Performed a b (some s) none = ⊥
Performed a b (some s) (some (ok, c)) = Simulates a b s c

-- What the system keeps after a call: an initialization may lose what the log line had taken.
abbrev pub kept : Answers → Event → Before → Before
kept a Event.init_audio b = lose a.init b
kept a _ b = b

module _ (a : Answers) (real : a.thread ≢ 0) (b : Before) (left : ℕ) where
  init_lem :
      (refers : Bool) (c : Client)
      → Simulates a b (at Device.closed refers) c
      → Performed a
          (lose a.init b)
          (some (at Device.opened refers))
          (init_audio_capture a.thread a.init c)
  init_lem refers c s =
      split (init_audio_capture a.thread a.init c) (init-Opened a.thread real b a.init c s.0)
    where
      split :
          (r : Option (Bool × Client))
          → Ends (Opened a.thread b a.init c) r
          → Performed a (lose a.init b) (some (at Device.opened refers)) r
      split none e = e
      split (some (ok, c')) e = (
        record {
          owned = e.owned;
          capture_client = ground (arith, e.answer, e.capture_client);
          client = ground (arith, e.answer, e.client);
          format_usable = ground (arith, e.answer, e.format_usable);
        },
        ground (arith, e.buffer, s.1),
      )

  running-IsOpen :
      (c : Client) → IsOpen a b c → c.client ≡ true → IsOpen a b (record c { running = true })
  running-IsOpen c o client = record {
    owned = record {
      refs = o.owned.refs;
      allocated = o.owned.allocated;
      joiner = o.owned.joiner;
      joined = o.owned.joined;
      client = λ e. client;
    };
    capture_client = o.capture_client;
    client = o.client;
    format_usable = o.format_usable;
  }

  stopped-IsOpen : (c : Client) → IsOpen a b c → IsOpen a b (record c { running = false })
  stopped-IsOpen c o = ground (arith, o)

  buffer-IsOpen : (x : Bool) (c : Client) → IsOpen a b c → IsOpen a b (record c { buffer = x })
  buffer-IsOpen x c o = ground (arith, o)

  start_lem :
      (refers : Bool) (c : Client)
      → Simulates a b (at Device.opened refers) c
      → Performed a b (some (at Device.opened refers)) (start_audio_capture a.start c)
  unfolding start_audio_capture
  start_lem refers c s = split (c.client && c.format_usable) a.start.reset a.start.start refl
    where
      split :
          (ready reset start : Bool)
          → (c.client && c.format_usable) ≡ ready
          → Performed a b (some (at Device.opened refers)) (
              if ready
              then (attempt reset (λ c. c)
                    then_run attempt start (λ c. record c { running = true }))
                  c
              else some (false, c))
      split false reset start e = s
      split true false start e = s
      split true true false e = s
      split true true true e = (running-IsOpen c s.0 (ground (arith, e)), s.1)

  started_lem :
      (refers : Bool) (c : Client)
      → starts a ≡ true
      → Simulates a b (at Device.opened refers) c
      → Performed a b (some (at Device.running refers)) (start_audio_capture a.start c)
  started_lem refers c ok s = raise (start_audio_capture a.start c) (start_lem refers c s)
    where
      raise :
          (r : Option (Bool × Client))
          → Performed a b (some (at Device.opened refers)) r
          → Performed a b (some (at Device.running refers)) r
      raise none p = p
      raise (some (answer, c')) p = ((p.0, ok), p.1)

  -- `buffer` counts for nothing else.
  buffer-Stands :
      (x : Bool) (d : Device) (c : Client) → Stands a b d c → Stands a b d (record c { buffer = x })
  buffer-Stands x Device.closed c s = ground (arith, s)
  buffer-Stands x Device.opened c s = buffer-IsOpen x c s
  buffer-Stands x Device.running c s = (buffer-IsOpen x c s.0, s.1)
  buffer-Stands x Device.stopped c s = buffer-IsOpen x c s

  draw_lem :
      (d : Device) (audio : Bool) (c : Client)
      → Stands a b d c
      → (audio ≡ true → c.capture_client ≡ true)
      → (registers ticks : Bool)
      → Performed a b (some (at d true)) (use_audio registers ticks audio c)
  unfolding use_audio
  draw_lem d false c s client registers ticks =
      (buffer-Stands (registers || c.buffer) d c s, λ e. ground arith)
  draw_lem d true c s client registers false =
      (buffer-Stands (registers || c.buffer) d c s, λ e. ground arith)
  draw_lem d true c s client registers true =
      taken (Performed a b (some (at d true))) _ _ c.capture_client (client refl)
        (buffer-Stands (registers || c.buffer) d c s, λ e. ground arith)

  stop_lem :
      (refers : Bool) (c : Client)
      → Simulates a b (at Device.running refers) c
      → (ok : Bool) → Performed a b (some (at Device.stopped refers)) (stop_audio_capture ok c)
  unfolding stop_audio_capture
  stop_lem refers c s ok = split c.client ok (s.0.0.client s.0.1)
    where
      split :
          (used ok : Bool)
          → used ≡ true
          → Performed a b
              (some (at Device.stopped refers))
              (elim (if◌then◌else◌ {A = Option (Bool × Client)} used (some (true, c)) none) [
                | none ↦ none
                | some (go, c') ↦
                    if go
                    then attempt ok (λ c. record c { running = false }) c'
                    else some (false, c')
              ])
      split true true e = (stopped-IsOpen c s.0.0, s.1)
      split true false e = (s.0.0, s.1)
      split false ok e = ground arith

  cleanup_lem :
      (c : Client)
      → IsOpen a b c
      → Performed a b
          (some (at Device.closed false))
          (some (true, cleanup_audio_capture a.thread c))
  unfolding cleanup_audio_capture
  cleanup_lem c o = (cleanup-Returned a.thread real b c o.owned, λ e. refl)

  -- Every call that the protocol allows is a call that the device can serve.
  pub perform_lem :
      (e : Event) (d : Device) (refers : Bool) (c : Client)
      → IsConsistent (starts a) e
      → Simulates a b (at d refers) c
      → Performed a (kept a e b) (allow e d refers) (perform a left e c)
  unfolding perform allow
  perform_lem Event.init_audio Device.closed refers c ok s = init_lem refers c s
  perform_lem (Event.start_audio false) Device.opened refers c ok s = start_lem refers c s
  perform_lem (Event.start_audio true) Device.opened refers c ok s = started_lem refers c ok s
  perform_lem (Event.create_renderer true) Device.running refers c ok s = (s.0, λ e. ground arith)
  perform_lem (Event.create_renderer false) Device.opened refers c ok s = (s.0, λ e. ground arith)
  perform_lem (Event.create_renderer false) Device.closed refers c ok s = (s.0, λ e. ground arith)
  perform_lem (Event.draw true) Device.running true c ok s =
      draw_lem Device.running true c s.0 (λ e. s.0.0.capture_client s.0.1) (a.registers left)
        (a.ticks left)
  perform_lem (Event.draw false) Device.opened true c ok s =
      draw_lem Device.opened false c s.0 (λ e. ground arith) (a.registers left) (a.ticks left)
  perform_lem (Event.draw false) Device.closed true c ok s =
      draw_lem Device.closed false c s.0 (λ e. ground arith) (a.registers left) (a.ticks left)
  perform_lem Event.report_audio Device.running refers c ok s = s
  perform_lem Event.stop_audio Device.running refers c ok s = stop_lem refers c s a.stop
  perform_lem Event.report_audio_last Device.stopped refers c ok s = s
  perform_lem Event.forget_buffer Device.closed refers c ok s =
      (buffer-Stands false Device.closed c s.0, λ e. refl)
  perform_lem Event.forget_buffer Device.opened refers c ok s =
      (buffer-Stands false Device.opened c s.0, λ e. refl)
  perform_lem Event.forget_buffer Device.stopped refers c ok s =
      (buffer-Stands false Device.stopped c s.0, λ e. refl)
  perform_lem Event.cleanup_audio Device.opened false c ok s = cleanup_lem c s.0
  perform_lem Event.cleanup_audio Device.stopped false c ok s = cleanup_lem c s.0
  perform_lem _ _ _ _ _ _ = tt
