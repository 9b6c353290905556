-- ===== src/AudioDevice/Worker/Returns.antt =====
-- The stream worker gives the audio device back.
use mi_ster_cast.Prelude.{
  ◌≡◌, ◌≢◌, refl, Bool, true, false, not, ◌&&◌, ◌||◌, Option, none, some, List, [], ◌∷◌, ◌++◌,
  length, if◌then◌else◌,
}
use mathlib.Core.Path.{subst}
use mi_ster_cast.CastWorker.{
  Outcome, Event, Worker, Prepared, attempt_audio, no_audio, prepare, report_after, draw_all,
  stream, stop_if, clean_up_if, cast_screen,
}
use mi_ster_cast.CastWorker.Protocol.{Device, Audio, at, allow, follow, cast_screen-GivesBack}
use mi_ster_cast.AudioDevice.{Client}
use mi_ster_cast.AudioDevice.Accounts.{Before, lose, Returned}
use mi_ster_cast.AudioDevice.Worker.{Answers, perform, perform_all, starts}
use mi_ster_cast.AudioDevice.Worker.Losses.{kept_by, kept_by-cast_screen}
use mi_ster_cast.AudioDevice.Worker.Serves.{AllConsistent, Simulates, Performed, kept, perform_lem}

-- One call after the other.
follow-none : (events : List Event) → follow events none ≡ none
unfolding follow
follow-none [] = refl
follow-none (e ∷ events) = refl

abbrev EndsAt : Answers → Before → Option Audio → Option Client → Type 0
EndsAt a b none r = Unit
EndsAt a b (some s) none = ⊥
EndsAt a b (some s) (some c) = Simulates a b s c

module _ (a : Answers) (real : a.thread ≢ 0) where
  abbrev Later : List Event → Type 0
  Later events =
      (b : Before) (d : Device) (refers : Bool) (c : Client)
      → Simulates a b (at d refers) c
      → EndsAt a (kept_by a events b) (follow events (some (at d refers))) (perform_all a events c)

  next_lem :
      (events : List Event)
      → Later events
      → (b : Before) (s : Option Audio) (r : Option (Bool × Client)) → Performed a b s r
      → EndsAt a
          (kept_by a events b)
          (follow events s)
          (elim r [ none ↦ none | some (answer, c) ↦ perform_all a events c ])
  next_lem events later b none r p = rw (follow-none events) tt
  next_lem events later b (some s) none p = absurd p
  next_lem events later b (some s) (some (answer, c)) p = later b s.device s.refers c p

  perform_all_lem : (events : List Event) → AllConsistent (starts a) events → Later events
  unfolding perform_all follow kept_by
  perform_all_lem [] ok b d refers c s = s
  perform_all_lem (e ∷ events) ok b d refers c s =
      next_lem events (perform_all_lem events ok.1) (kept a e b) (allow e d refers)
        (perform a (length events) e c) (perform_lem a real b (length events) e d refers c ok.0 s)

module _ (ok : Bool) where
  both-AllConsistent :
      (xs ys : List Event) → AllConsistent ok xs → AllConsistent ok ys → AllConsistent ok (xs ++ ys)
  both-AllConsistent [] ys p q = q
  both-AllConsistent (x ∷ xs) ys p q = (p.0, both-AllConsistent xs ys p.1 q)

  draw_all-AllConsistent :
      (audio : Bool) (draws : List Bool) → AllConsistent ok (draw_all audio draws)
  unfolding draw_all report_after
  draw_all-AllConsistent audio [] = tt
  draw_all-AllConsistent audio (true ∷ draws) = (tt, tt)
  draw_all-AllConsistent false (false ∷ draws) = (tt, draw_all-AllConsistent false draws)
  draw_all-AllConsistent true (false ∷ draws) = (tt, (tt, draw_all-AllConsistent true draws))

  attempt-AllConsistent :
      (init start : Outcome)
      → (start ≡ Outcome.answered true → ok ≡ true)
      → AllConsistent ok (attempt_audio init start).calls
  unfolding attempt_audio
  attempt-AllConsistent Outcome.threw start h = (tt, tt)
  attempt-AllConsistent (Outcome.answered false) start h = (tt, tt)
  attempt-AllConsistent (Outcome.answered true) (Outcome.answered true) h = (tt, (h refl, tt))
  attempt-AllConsistent (Outcome.answered true) (Outcome.answered false) h = (tt, (tt, tt))
  attempt-AllConsistent (Outcome.answered true) Outcome.threw h = (tt, (tt, tt))

  ending-AllConsistent :
      (started attempted : Bool)
      → AllConsistent ok (stop_if started ++ (Event.forget_buffer ∷ clean_up_if attempted))
  unfolding stop_if clean_up_if
  ending-AllConsistent false false = (tt, tt)
  ending-AllConsistent false true = (tt, (tt, tt))
  ending-AllConsistent true false = (tt, (tt, (tt, tt)))
  ending-AllConsistent true true = (tt, (tt, (tt, (tt, tt))))

  stream-AllConsistent : (w : Worker) (audio : Bool) → AllConsistent ok (stream w audio)
  unfolding stream
  stream-AllConsistent w audio = (tt, split w.renderer_throws)
    where
      split : (throws : Bool) → AllConsistent ok (if throws then [] else draw_all audio w.draws)
      split true = tt
      split false = draw_all-AllConsistent audio w.draws

  cast_screen-AllConsistent :
      (w : Worker)
      → (w.start_outcome ≡ Outcome.answered true → ok ≡ true)
      → AllConsistent ok (cast_screen w)
  unfolding cast_screen prepare
  cast_screen-AllConsistent w h =
      both-AllConsistent p.calls _ (wanted (w.source_audio && not w.stopped_before_audio)) (
        both-AllConsistent
          (if p.has_thrown || w.stopped_before_renderer then [] else stream w p.audio_started) _
          (over (p.has_thrown || w.stopped_before_renderer))
          (ending-AllConsistent p.audio_started p.audio_init_attempted))
    where
      p : Prepared
      p = prepare w

      wanted :
          (b : Bool)
          → AllConsistent ok
              (if b then attempt_audio w.init_outcome w.start_outcome else no_audio).calls
      wanted true = attempt-AllConsistent w.init_outcome w.start_outcome h
      wanted false = tt

      over : (b : Bool) → AllConsistent ok (if b then [] else stream w p.audio_started)
      over true = tt
      over false = stream-AllConsistent w p.audio_started

-- The end of the worker: no null pointer was used and all is given back.
abbrev pub IsAllReturned : Before → Option Client → Type 0
IsAllReturned b none = ⊥
IsAllReturned b (some c) = Returned b c × (c.buffer ≡ false)

-- The calls of `cast_screen` on the audio device, started while the globals hold nothing. The system
-- may refuse any call, and `InitAudioCapture`, `StartAudioCapture`, the renderer or a draw may throw.
-- If the worker is told that the capture starts only when it did, no call uses a null pointer, a draw
-- finds the capture client that it takes packets from, and at the end every pointer is null, nothing
-- captures, and every reference, every block of memory and COM on every thread is given back, with
-- one exception: if the worker comes to `InitAudioCapture` and the log line of `LogAudioEndpoint`
-- throws, the property store that this function had opened, the id and the name stay allocated.
pub cast_screen-IsAllReturned :
    (a : Answers)
    → a.thread ≢ 0
    → (b : Before) (w : Worker) → (w.start_outcome ≡ Outcome.answered true → starts a ≡ true)
    → (c : Client) → Returned b c
    → c.buffer ≡ false
    → IsAllReturned
        (if w.source_audio && not w.stopped_before_audio then lose a.init b else b)
        (perform_all a (cast_screen w) c)
cast_screen-IsAllReturned a real b w h c r e =
    subst (λ x. IsAllReturned x (perform_all a (cast_screen w) c)) (kept_by-cast_screen a w b)
      (finish (perform_all a (cast_screen w) c) (
        rw⁻¹ (cast_screen-GivesBack w) (
          perform_all_lem a real (cast_screen w) (cast_screen-AllConsistent (starts a) w h) b
            Device.closed false c (r, λ e'. e))))
  where
    finish :
        (result : Option Client)
        → EndsAt a (kept_by a (cast_screen w) b) (some (at Device.closed false)) result
        → IsAllReturned (kept_by a (cast_screen w) b) result
    finish none p = p
    finish (some c') p = (p.0, p.1 refl)
