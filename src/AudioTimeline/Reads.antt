-- ===== src/AudioTimeline/Reads.antt =====
-- Which floats of a packet `push` reads.
use mi_ster_cast.Prelude.{
  ℕ, zero, suc, ◌+◌, ◌*◌, ◌≡◌, ◌≢◌, ◌<◌, ◌≤◌, refl, ap, ◌∙◌, Bool, true, false, not, ◌||◌, some,
  arith, cell-lt, ltb, ◌==◌, if◌then◌else◌,
}
use mi_ster_cast.Prelude.Int.{ℤ, pos, ◌+ℤ◌}
use mi_ster_cast.AudioTimeline.{Timeline, place, place_all, frame_sample, push}

place_all-agree :
    (f g : ℕ → ℤ × ℤ) (start : ℤ) (n i : ℕ) (t : Timeline)
    → ((j : ℕ) → i ≤ j → j < i + n → f j ≡ g j)
    → place_all f start n i t ≡ place_all g start n i t
unfolding place_all
place_all-agree f g start zero i t h = refl
place_all-agree f g start (suc n) i t h =
    ap (λ x. place_all f start n (i + 1) (place (start +ℤ pos i) x t))
      (h i (ground arith) (ground arith))
    ∙ place_all-agree f g start n (i + 1) (place (start +ℤ pos i) (g i) t)
        (λ j low high. h j (ground arith) (ground arith))

-- The two branches that differ are not reached together with the condition.
else-agree :
    {A : Type 0} (b : Bool) (x y z : A)
    → (b ≡ false → y ≡ z)
    → (if b then x else y) ≡ (if b then x else z)
else-agree true x y z h = refl
else-agree false x y z h = h refl

module _ (f g : ℕ → ℤ) (frames channels : ℕ)
    (agree : (j : ℕ) → j < frames * channels → f j ≡ g j) where
  frame_sample-agree :
      (silent : Bool) (i : ℕ)
      → channels ≢ 0
      → i < frames
      → frame_sample f silent channels i ≡ frame_sample g silent channels i
  unfolding frame_sample
  frame_sample-agree true i some_channel h = refl
  frame_sample-agree false i some_channel h = rw (left, right) refl
    where
      second : ℕ
      second = if ltb 1 channels then 1 else 0

      left : f (i * channels) ≡ g (i * channels)
      left = agree (i * channels) (ground (arith, cell-lt i 0 channels frames h))

      right : f (i * channels + second) ≡ g (i * channels + second)
      right = agree (i * channels + second) (cell-lt i second channels frames h (ground arith))

  pub push-agree :
      (silent : Bool) (position : ℕ) (timestamp : ℤ) (valid discontinuity : Bool) (t : Timeline)
      → push (some f) frames channels silent position timestamp valid discontinuity t
        ≡ push (some g) frames channels silent position timestamp valid discontinuity t
  unfolding push
  push-agree silent position timestamp valid discontinuity t =
      else-agree (t.rate == 0 || not valid || false || channels == 0) _ _ _ (λ e.
        place_all-agree _ _ _ frames 0 _
          (λ j low high. frame_sample-agree silent j (ground arith) (ground arith)))
