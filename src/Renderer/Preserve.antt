-- ===== src/Renderer/Preserve.antt =====
-- A draw keeps the renderer's invariant.
use mathlib.Core.Bool.{false≢true}
use mi_ster_cast.Prelude.{
  ◌/◌, ◌≡◌, ◌≢◌, refl, Bool, true, false, List, [], ◌∷◌, if◌then◌else◌, ◌==◌, not, sym, ◌∙◌,
}
use mi_ster_cast.Modeline.{validate_modeline_for}
use mi_ster_cast.Modeline.Classify.{IsU16Mode}
use mi_ster_cast.Session.Globals.{zero_mode, is_ok}
use mi_ster_cast.Session.Invariant.{is_ok-eq}
use mi_ster_cast.Renderer.{Renderer, World, Command, cmd_switchres}
use mi_ster_cast.Renderer.Switching.{nogpu_init, nogpu_switch_video_mode, init_commands}
use mi_ster_cast.Renderer.Draw.{draw_frame, draw_switched, draw_connected, draw_initialized, draw}
use mi_ster_cast.Renderer.Invariant.{
  Held, IsValid, EndsValid, EndsValid-after, draw_frame-EndsValid,
}

-- What the session guarantees of the selected mode: uint16_t fields, and a revision from 1 on.
pub record IsWorld (w : World) : Type 0 where
  pub typed : IsU16Mode w.pending
  pub counted : w.revision ≢ 0

-- The renderer after an acknowledged mode.
abbrev pub switched_to : World → Renderer → Renderer
switched_to w r = record r {
  current_mode = w.pending;
  mode_revision = w.revision;
  width = w.pending.hactive;
  height = if w.pending.interlace then w.pending.vactive / 2 else w.pending.vactive;
  vtotal = w.pending.vtotal;
  field = 0;
}

abbrev LeavesValid : Bool × Renderer × List Command → Type 0
LeavesValid attempt = IsValid (attempt.1)

-- The switch leaves a valid renderer, whether it succeeds or not.
switch-IsValid :
    (w : World) (r : Renderer)
    → IsWorld w
    → r.initialized ≡ true
    → IsValid r
    → LeavesValid (nogpu_switch_video_mode w r)
unfolding nogpu_switch_video_mode
switch-IsValid w r u online v =
    split (w.revision == r.mode_revision)
      (is_ok (validate_modeline_for w.pending r.options.rgb_mode r.options.allow_oversize_modes))
      refl (w.switch_ret == 0)
  where
    split :
        (same ok : Bool)
        → is_ok (validate_modeline_for w.pending r.options.rgb_mode r.options.allow_oversize_modes)
          ≡ ok
        → (acked : Bool)
        → LeavesValid (
            if same
            then (true, r, [])
            else if not ok
            then (false, r, [])
            else if not acked
            then (false, r, cmd_switchres w.pending ∷ [])
            else (true, switched_to w r, cmd_switchres w.pending ∷ []))
    split true ok e acked = v
    split false false e acked = v
    split false true e false = v
    split false true e true = record {
      waiting = λ none. absurd (u.counted none);
      running =
          λ some. record { typed = u.typed; accepted = is_ok-eq _ e; wide = refl; tall = refl };
      offline = λ off. absurd (false≢true (sym off ∙ online));
    }

draw_switched-EndsValid :
    (w : World) (switched : Bool × Renderer × List Command)
    → LeavesValid switched
    → EndsValid (draw_switched w switched)
unfolding draw_switched
draw_switched-EndsValid w (true, r, commands) v =
    EndsValid-after commands (draw_frame w r) (draw_frame-EndsValid w r v)
draw_switched-EndsValid w (false, r, commands) v = v

draw_connected-EndsValid :
    (w : World) (r : Renderer)
    → IsWorld w
    → r.initialized ≡ true
    → IsValid r
    → EndsValid (draw_connected w r)
unfolding draw_connected
draw_connected-EndsValid w r u online v =
    draw_switched-EndsValid w (nogpu_switch_video_mode w r) (switch-IsValid w r u online v)

draw_initialized-EndsValid :
    (w : World) (r : Renderer)
    → IsWorld w
    → r.initialized ≡ false
    → IsValid r
    → EndsValid (draw_initialized w (nogpu_init w r))
unfolding draw_initialized nogpu_init
draw_initialized-EndsValid w r u off v = split (w.init_ret == 0)
  where
    reset : (online : Bool) → Held r.options online zero_mode r.mode_revision r.width r.height
    reset online = record {
      waiting = v.waiting;
      running = λ some. absurd (some (v.offline off));
      offline = λ _. v.offline off;
    }

    attached : Renderer
    attached = record r { current_mode = zero_mode; audio_attached = true }

    split :
        (b : Bool)
        → EndsValid (
            draw_initialized w (
              if b
              then (true, attached, init_commands w r)
              else (false, record r { current_mode = zero_mode }, init_commands w r)))
    split true =
        EndsValid-after (init_commands w r) _
          (draw_connected-EndsValid w (record attached { initialized = true }) u refl (reset true))
    split false = rw off (reset false)

-- Every draw that ends leaves the invariant, whatever the client and the audio capture answer: no
-- connection, no acknowledged mode, no frame, a skipped frame, a sent one, or an audio failure.
-- Before the first acknowledged mode the blit is empty; from then on the current mode is one that
-- the stream's format accepts, and width and height are those of its blit.
pub draw-IsValid : (w : World) (r : Renderer) → IsWorld w → IsValid r → EndsValid (draw w r)
unfolding draw
draw-IsValid w r u v = split r.initialized refl
  where
    split :
        (b : Bool)
        → r.initialized ≡ b
        → EndsValid (if b then draw_connected w r else draw_initialized w (nogpu_init w r))
    split true online = draw_connected-EndsValid w r u online v
    split false off = draw_initialized-EndsValid w r u off v
