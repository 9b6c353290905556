-- ===== src/Renderer/Sends.antt =====
-- When a draw sends a frame, and which.
use mi_ster_cast.Prelude.{
  if-true, if-false, ℕ, ◌≡◌, ◌≢◌, refl, ap, ◌∙◌, Bool, true, false, ◌&&◌, Option, none, some, List,
  [], ◌∷◌, arith, ltb, if◌then◌else◌, ◌==◌, ◌⊎◌, inl, inr,
}
use mi_ster_cast.Prelude.Fault.{◌>>=◌}
use mi_ster_cast.Modeline.Classify.{accepted-fits}
use mi_ster_cast.Frame.{Memory, pack_frame}
use mi_ster_cast.Frame.Pack.{IsCapture, IsBlit, RowsPacked, pack_frame-image}
use mi_ster_cast.Renderer.{Renderer, World, Command, cmd_blit, sent, packer}
use mi_ster_cast.Renderer.Switching.{nogpu_switch_video_mode}
use mi_ster_cast.Renderer.Draw.{
  next_frame, next_field, advance, take_audio, draw_audio, count_blit, blit, after_audio,
  after_pack, finish, draw_frame, draw_switched, draw_connected, draw, after,
}
use mi_ster_cast.Renderer.Invariant.{IsInUse, IsValid}

-- The blit of a mode in use fits the client's buffer.
in_use-IsBlit :
    (r : Renderer) → IsInUse r.options r.current_mode r.width r.height → IsBlit (packer r)
in_use-IsBlit r used =
    let bounds =
      accepted-fits r.current_mode r.options.rgb_mode r.options.allow_oversize_modes used.typed
        used.accepted in
    record {
      width_u16 = omega (arith, used.wide, used.typed.hactive_u16);
      height_u16 = ground (arith, used.tall, used.typed.vactive_u16);
      some_bytes = rw (used.wide, used.tall) (bounds.1);
      fits = rw (used.wide, used.tall) (bounds.2);
    }

-- What a draw needs in order to send: a connection, the selected mode in use, a captured frame,
-- the client's buffer, an audio capture that works if there is audio, and no first frame to skip.
pub record CanSend (w : World) (r : Renderer) (fb : Memory) : Type 0 where
  pub online : r.initialized ≡ true
  pub running : r.mode_revision ≢ 0
  pub same_mode : w.revision ≡ r.mode_revision
  pub captured : IsCapture w.capture
  pub buffer : w.buffer (next_field w r (next_frame w r)) ≡ some fb
  pub hearing : (r.source.audio ≡ false) ⊎ ((pos : ℕ) × (w.audio ≡ some pos))
  pub not_skipped : (r.source.syncrefresh && r.first_blit) ≡ false

-- The frame that a draw of a renderer in use packs.
packed_frame :
    (w : World) (r : Renderer) (fb : Memory)
    → IsValid r
    → CanSend w r fb
    → (fb' : Memory) × (pack_frame (packer (advance w r)) w.capture (w.buffer (advance w r).field)
        ≡ some (true, some fb'))
      × RowsPacked (packer (advance w r)) w.capture 0 r.height fb fb'
unfolding advance
packed_frame w r fb v c =
    let (fb', run, rows) =
      pack_frame-image (packer (advance w r)) w.capture fb
        (in_use-IsBlit (advance w r) (v.running c.running)) c.captured in
    (fb', rw c.buffer run, rows)

some-if {ℓ} :
    {A : Type ℓ} (b : Bool) (x y : A) → (a : A) × ((if b then some x else some y) ≡ some a)
some-if true x y = (x, refl)
some-if false x y = (y, refl)

draw_audio-runs :
    (w : World) (r : Renderer)
    → (r.source.audio ≡ false) ⊎ ((pos : ℕ) × (w.audio ≡ some pos))
    → (result : Renderer × List Command) × (draw_audio w r ≡ some result)
unfolding draw_audio take_audio
draw_audio-runs w r h = split r.source.audio w.audio h
  where
    split :
        (b : Bool) (a : Option ℕ)
        → (b ≡ false) ⊎ ((pos : ℕ) × (a ≡ some pos))
        → (result : Renderer × List Command) × ((if b then take_audio w a r else some (r, []))
            ≡ some result)
    split false a h = ((r, []), refl)
    split true none (inl e) = cc
    split true none (inr (pos, e)) = cc
    split true (some pos) h = some-if (ltb 0 pos) _ _

blit-sends :
    (w : World) (fb : Option Memory) (r : Renderer)
    → (r.source.audio ≡ false) ⊎ ((pos : ℕ) × (w.audio ≡ some pos))
    → (r' : Renderer) × (rest : List Command) × (blit w fb r
        ≡ (sent, r', cmd_blit r.frame r.field fb ∷ rest))
unfolding blit after_audio count_blit
blit-sends w fb r h =
    let (result, heard) = draw_audio-runs w (count_blit w r) h in
    (finish w (result.0), result.1, ap (after_audio w fb (count_blit w r)) heard)

draw_frame-sends :
    (w : World) (r : Renderer) (fb : Memory)
    → IsValid r
    → CanSend w r fb
    → (fb' : Memory) × (r' : Renderer) × (rest : List Command) × (draw_frame w r
        ≡ some (
          sent,
          r',
          cmd_blit (next_frame w r) (next_field w r (next_frame w r)) (some fb') ∷ rest,
        ))
      × RowsPacked (packer (advance w r)) w.capture 0 r.height fb fb'
unfolding draw_frame after_pack advance
draw_frame-sends w r fb v c =
    let (fb', packed, rows) = packed_frame w r fb v c in
    let (r', rest, sends) =
      blit-sends w (some fb') (record (advance w r) { time_entry = w.entry_ticks }) c.hearing in
    (
      fb',
      r',
      rest,
      ap (λ o. o >>= λ p. some (after_pack w p (advance w r))) packed
          ∙ ap some (if-false _ _ c.not_skipped ∙ sends),
      rows,
    )

-- A renderer that is connected and has the selected mode goes on to the frame.
draw-steady :
    (w : World) (r : Renderer)
    → r.initialized ≡ true
    → w.revision ≡ r.mode_revision
    → draw w r ≡ after [] (draw_frame w r)
unfolding draw draw_connected draw_switched nogpu_switch_video_mode
draw-steady w r online same =
    if-true _ _ online ∙ ap (draw_switched w) (if-true _ _ (same_revision same))
  where
    same_revision : {m n : ℕ} → m ≡ n → (m == n) ≡ true
    same_revision e = ground arith

-- A draw in steady use: it ends as sent, and its first command is the blit of the draw's frame and
-- field, with a buffer in which every row of the blit is, in the columns that the blit and the
-- capture both have, the wire image of the captured row.
pub draw-sends :
    (w : World) (r : Renderer) (fb : Memory)
    → IsValid r
    → CanSend w r fb
    → (fb' : Memory) × (r' : Renderer) × (rest : List Command) × (draw w r
        ≡ some (
          sent,
          r',
          cmd_blit (next_frame w r) (next_field w r (next_frame w r)) (some fb') ∷ rest,
        ))
      × RowsPacked (packer (advance w r)) w.capture 0 r.height fb fb'
draw-sends w r fb v c =
    let (fb', r', rest, sends, rows) = draw_frame-sends w r fb v c in
    (fb', r', rest, draw-steady w r c.online c.same_mode ∙ ap (after []) sends, rows)
