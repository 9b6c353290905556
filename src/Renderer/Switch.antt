-- ===== src/Renderer/Switch.antt =====
-- The first draw of a stream.
use mi_ster_cast.Prelude.{
  if-true, if-false, ℕ, ◌+◌, ◌≡◌, ◌≢◌, refl, ap, ◌∙◌, true, false, not, some, [], ◌∷◌, arith, ◌==◌,
}
use mathlib.Core.Path.{subst}
use mi_ster_cast.Modeline.Classify.{IsU16Mode}
use mi_ster_cast.Prelude.Words.{u64}
use mi_ster_cast.Modeline.{Modeline, Verdict, mode_ok, validate_modeline_for}
use mi_ster_cast.Session.{StreamWorker, App, Target}
use mi_ster_cast.Session.Calls.{run_start_stream}
use mi_ster_cast.Session.Globals.{is_ok, zero_mode}
use mi_ster_cast.Session.Invariant as Session_Invariant
use mi_ster_cast.Session.Stream.{started_lem}
use mi_ster_cast.Renderer.{Renderer, World, cmd_switchres}
use mi_ster_cast.Renderer.Switching.{
  new_renderer, init_commands, nogpu_init, nogpu_switch_video_mode,
}
use mi_ster_cast.Renderer.Draw.{
  draw_frame, draw_switched, draw_connected, draw_initialized, draw, after,
}
use mi_ster_cast.Renderer.Invariant.{IsInUse}
use mi_ster_cast.Renderer.Preserve.{switched_to}

other_revision : {m n : ℕ} → m ≢ n → (m == n) ≡ false
other_revision e = ground arith

same_revision : {m n : ℕ} → m ≡ n → (m == n) ≡ true
same_revision e = ground arith

ok : (v : Verdict) → v ≡ mode_ok → not (is_ok v) ≡ false
ok v e = ground arith

-- The switch to a new revision that the core acknowledges.
switch-takes :
    (w : World) (r : Renderer)
    → w.revision ≢ r.mode_revision
    → validate_modeline_for w.pending r.options.rgb_mode r.options.allow_oversize_modes ≡ mode_ok
    → w.switch_ret ≡ 0
    → nogpu_switch_video_mode w r ≡ (true, switched_to w r, cmd_switchres w.pending ∷ [])
unfolding nogpu_switch_video_mode
switch-takes w r new good ack =
    if-false _ _ (other_revision new)
    ∙ if-false _ _ (ok _ good)
    ∙ if-false _ _ (ap not (same_revision ack))

-- The renderer once the core has answered CMD_INIT.
abbrev pub connected : Renderer → Renderer
connected r = record r { current_mode = zero_mode; audio_attached = true; initialized = true }

draw-offline :
    (w : World) (r : Renderer)
    → r.initialized ≡ false
    → w.init_ret ≡ 0
    → draw w r ≡ after (init_commands w r) (draw_connected w (connected r))
unfolding draw draw_initialized nogpu_init
draw-offline w r off ack =
    if-false _ _ off ∙ ap (draw_initialized w) (if-true _ _ (same_revision ack))

-- The renderer of a stream's first frame.
abbrev pub started : World → StreamWorker → Renderer
started w worker = switched_to w (connected (new_renderer worker.options worker.source))

-- What the first draw does for a worker.
abbrev Begins : World → StreamWorker → Type 0
Begins w worker =
    (draw w (new_renderer worker.options worker.source)
      ≡ after (init_commands w (new_renderer worker.options worker.source))
          (after (cmd_switchres w.pending ∷ []) (draw_frame w (started w worker))))
    × IsInUse worker.options w.pending (started w worker).width (started w worker).height

streaming-Begins :
    (w : World) (worker : StreamWorker) (m : Modeline)
    → IsU16Mode m
    → w.pending ≡ m
    → validate_modeline_for m worker.options.rgb_mode worker.options.allow_oversize_modes ≡ mode_ok
    → w.revision ≢ 0
    → w.init_ret ≡ 0
    → w.switch_ret ≡ 0
    → Begins w worker
unfolding draw_connected draw_switched
streaming-Begins w worker m typed same good counted init ack = (
  draw-offline w fresh refl init
      ∙ ap (λ switch. after (init_commands w fresh) (draw_switched w switch))
          (switch-takes w (connected fresh) counted accepted ack),
  record { typed = rw same typed; accepted = accepted; wide = refl; tall = refl },
)
  where
    fresh : Renderer
    fresh = new_renderer worker.options worker.source

    accepted :
        validate_modeline_for w.pending worker.options.rgb_mode worker.options.allow_oversize_modes
        ≡ mode_ok
    accepted = rw same good

-- The stream of a state can begin.
abbrev Starts : World → App → Type 0
Starts w q =
    (worker : StreamWorker) × (q.stream_worker ≡ some worker)
    × (draw w (new_renderer worker.options worker.source)
        ≡ after (init_commands w (new_renderer worker.options worker.source))
            (after (cmd_switchres w.pending ∷ []) (draw_frame w (started w worker))))
    × IsInUse worker.options w.pending (started w worker).width (started w worker).height

-- A call of `StartStream` in a valid state that answers true leaves a worker whose stream can begin:
-- when the core answers and the selected mode has not changed since, the first draw of that worker's
-- renderer connects, switches to that mode and goes on to a frame; the mode is then one in use for
-- the worker's options.
pub start-draws :
    (t : Target) (s : App) (w : World) {r : App}
    → Session_Invariant.IsValid s
    → run_start_stream t s ≡ some (true, r)
    → w.pending ≡ r.selected
    → w.revision ≢ 0
    → w.init_ret ≡ 0
    → w.switch_ret ≡ 0
    → (worker : StreamWorker) × (r.stream_worker ≡ some worker)
      × (draw w (new_renderer worker.options worker.source)
          ≡ after
              (init_commands w (new_renderer worker.options worker.source))
              (after (cmd_switchres w.pending ∷ []) (draw_frame w (started w worker))))
      × IsInUse worker.options w.pending (started w worker).width (started w worker).height
start-draws t s w v started_as same counted init ack =
    let (a, state, accepted) = started_lem t s started_as in
    subst (λ q. w.pending ≡ q.selected → Starts w q) state
      (λ pending.
        let (first, used) =
          streaming-Begins w (the_worker a) s.selected v.mode_u16 pending accepted counted init
            ack in
        (the_worker a, refl, first, used))
      same
  where
    the_worker : ℕ → StreamWorker
    the_worker a = record {
      target = a;
      options = s.stream_config;
      source = s.source_config;
      session = u64 (s.session + 1);
    }
