-- ===== src/Pipeline/Wire.antt =====
-- From the mapped texture to the bytes on the wire.
use native.Mathlib.Decide.{dec_lt}
use native.Mathlib.Nat.{mod-lt, div-add-mod'}
use mi_ster_cast.Prelude.{
  ℕ, zero, suc, ◌+◌, ◌*◌, ◌/◌, ◌%◌, ◌^◌, min, ◌≤◌, ◌<◌, ◌≡◌, refl, ap, ◌∙◌, Bool, true, false,
  Option, none, some, List, [], ◌∷◌, length, get_elem?, get_or, arith, mul_le_mul,
}
use mi_ster_cast.Prelude.Steps.{Ends}
use mi_ster_cast.Modeline.{bytes_per_pixel}
use mi_ster_cast.Frame.{Bitmap, Packer, Memory, src_row, columns, pack_frame}
use mi_ster_cast.Frame.Rows.{IsBytes, wire_byte}
use mi_ster_cast.Frame.Pack.{IsCapture, IsBlit, blit_pixel, pack_frame-image}
use mi_ster_cast.VideoCapture.Picture.{Mapped, Screens}
use mi_ster_cast.VideoCapture.Picture.Publish.{IsPicture}
use mi_ster_cast.VideoCapture.Grab.{VideoState, TickAnswers}
use mi_ster_cast.VideoCapture.Tick.{take_options, tick_video_capture}
use mi_ster_cast.VideoCapture.Tick.Keeps.{IsValid}
use mi_ster_cast.VideoCapture.Tick.Shows.{Shown, Ticked, HasPitch, tick-Ticked}

-- A texture of bytes.
abbrev pub IsTexture : Mapped → Type 0
IsTexture m = (a : ℕ) → m.bytes a < 256

-- Byte `c` on the wire of the texture's pixel `x` in row `r`.
abbrev pub texture_byte : ℕ → Mapped → ℕ → ℕ → ℕ → ℕ
texture_byte rgb_mode m r x c =
    let a = m.row_pitch * r + x * 4 in
    wire_byte rgb_mode (m.bytes a ∷ m.bytes (a + 1) ∷ m.bytes (a + 2) ∷ m.bytes (a + 3) ∷ []) 0 c

get_or-of_get : (xs : List ℕ) (i v : ℕ) → get_elem? xs i ≡ some v → get_or xs i 0 ≡ v
get_or-of_get [] i v e = cc e
get_or-of_get (x ∷ xs) zero v e = cc e
get_or-of_get (x ∷ xs) (suc i) v e = get_or-of_get xs i v e

get_or-past : (xs : List ℕ) (i : ℕ) → length xs ≤ i → get_or xs i 0 ≡ 0
get_or-past [] i h = refl
get_or-past (x ∷ xs) zero h = absurd (omega arith)
get_or-past (x ∷ xs) (suc i) h = get_or-past xs i (omega arith)

-- The wire byte reads the four bytes of its pixel.
wire_byte-pixel :
    (rgb_mode : ℕ) (src : List ℕ) (q a b g d c : ℕ)
    → get_or src q 0 ≡ a
    → get_or src (q + 1) 0 ≡ b
    → get_or src (q + 2) 0 ≡ g
    → get_or src (q + 3) 0 ≡ d
    → c < 4
    → wire_byte rgb_mode src q c ≡ wire_byte rgb_mode (a ∷ b ∷ g ∷ d ∷ []) 0 c
wire_byte-pixel rgb_mode src q a b g d zero ea eb eg ed h = ground arith
wire_byte-pixel rgb_mode src q a b g d (suc zero) ea eb eg ed h = ground arith
wire_byte-pixel rgb_mode src q a b g d (suc (suc zero)) ea eb eg ed h = ground arith
wire_byte-pixel rgb_mode src q a b g d (suc (suc (suc zero))) ea eb eg ed h = ground arith
wire_byte-pixel rgb_mode src q a b g d (suc (suc (suc (suc c)))) ea eb eg ed h =
    absurd (omega arith)

module _ (m : Mapped) (width height : ℕ) (b : Bitmap) (p : IsPicture m width height b)
    (wide : 0 < width) where
  picture_byte :
      (r i : ℕ)
      → r < height
      → i < width * 4
      → get_or b.buffer (r * width * 4 + i) 0 ≡ m.bytes (m.row_pitch * r + i)
  picture_byte r i hr hi = get_or-of_get b.buffer (r * width * 4 + i) _ (p.image r i hr hi)

  picture-IsBytes : IsTexture m → IsBytes b.buffer
  picture-IsBytes bytes i = elim (dec_lt i (length b.buffer)) [
    | no past ↦ rw (get_or-past b.buffer i (omega arith)) (omega arith)
    | yes inside ↦
        let r = i / (width * 4) in
        let j = i % (width * 4) in
        let row : r * (width * 4) + j ≡ i = div-add-mod' i (width * 4) in
        let column : j < width * 4 = mod-lt i (omega arith) in
        let lower : r < height = below r j (omega (arith, row, inside)) in
        let at : r * width * 4 + j ≡ i = omega (arith, row) in
        rw (← at) (rw (picture_byte r j lower column) (bytes (m.row_pitch * r + j)))
  ]
    where
      below : (r j : ℕ) → r * (width * 4) + j < length b.buffer → r < height
      below r j h = elim (dec_lt r height) [
        | yes lt ↦ lt
        | no ge ↦ absurd (
            omega (
              arith,
              h,
              p.sized,
              ap (λ t. t * (height * 4)) p.width_set,
              ap (λ t. b.width * (t * 4)) p.height_set,
              mul_le_mul height width r width (omega arith) (omega arith),
            ))
      ]

  picture-IsCapture : IsTexture m → 0 < height → width < 2 ^ 16 → height < 2 ^ 16 → IsCapture b
  picture-IsCapture bytes tall width_u16 height_u16 = record {
    wide = omega (arith, p.width_set);
    tall = omega (arith, p.height_set);
    width_u16 = omega (arith, p.width_set);
    height_u16 = omega (arith, p.height_set);
    holds = omega (arith, p.sized);
    bytes = picture-IsBytes bytes;
  }

  picture_pixel :
      (r x i : ℕ)
      → r < height
      → x * 4 + i < width * 4
      → get_or b.buffer (r * width * 4 + x * 4 + i) 0 ≡ m.bytes (m.row_pitch * r + x * 4 + i)
  picture_pixel r x i hr hx =
      let to : r * width * 4 + x * 4 + i ≡ r * width * 4 + (x * 4 + i) = omega arith in
      let from : m.row_pitch * r + x * 4 + i ≡ m.row_pitch * r + (x * 4 + i) = omega arith in
      rw (to, from) (picture_byte r (x * 4 + i) hr hx)

  -- The pixel of the bitmap has the bytes of the texture's.
  pixel-texture :
      (rgb_mode r x c : ℕ)
      → r < height
      → x < width
      → c < bytes_per_pixel rgb_mode
      → wire_byte rgb_mode b.buffer ((r * b.width + x) * 4) c ≡ texture_byte rgb_mode m r x c
  unfolding bytes_per_pixel
  pixel-texture rgb_mode r x c hr hx hc =
      let from : (r * b.width + x) * 4 ≡ r * width * 4 + x * 4 =
        omega (arith, ap (λ t. r * t) p.width_set) in
      rw from (
        wire_byte-pixel rgb_mode b.buffer (r * width * 4 + x * 4) _ _ _ _ c
          (picture_byte r (x * 4) hr (omega arith)) (picture_pixel r x 1 hr (omega arith))
          (picture_pixel r x 2 hr (omega arith)) (picture_pixel r x 3 hr (omega arith))
          (ground arith))

-- A blit of the published picture, from its texture to the client's buffer.
pub record Wired (p : Packer) (fb : Memory) (k : TickAnswers) (s s' : VideoState) : Type 0 where
  pub mapped : Mapped
  pub from : k.mapped ≡ some mapped
  pub screens : Screens
  pub left : s'.captures ≡ some screens
  pub bitmap : Bitmap
  pub here : get_elem? screens.bitmaps screens.published ≡ some bitmap
  pub fb' : Memory
  pub packs : pack_frame p bitmap (some fb) ≡ some (true, some fb')
  pub image :
      (j x c : ℕ)
      → j < p.height
      → x < min p.width s.output_width
      → c < bytes_per_pixel p.rgb_mode
      → fb' (blit_pixel p j x + c) ≡ texture_byte p.rgb_mode mapped (src_row p bitmap j) x c

module _ (n : ℕ) (p : Packer) (fb : Memory) (k : TickAnswers) (s s' : VideoState) (blit : IsBlit p)
    (bytes : (m : Mapped) → k.mapped ≡ some m → IsTexture m) (v : IsValid n s) where
  Shown-Wired : Shown n k (take_options s) s' → Wired p fb k s s'
  unfolding take_options columns src_row
  Shown-Wired t =
      let picture = t.published.picture in
      let b = t.published.bitmap in
      let capture =
        picture-IsCapture t.mapped s.output_width s.output_height b picture v.wide
          (bytes t.mapped t.from) v.tall v.width_u16 v.height_u16 in
      let (fb', packs, packed) = pack_frame-image p b fb blit capture in
      record {
        mapped = t.mapped;
        from = t.from;
        screens = t.after;
        left = t.left;
        bitmap = b;
        here = t.published.here;
        fb' = fb';
        packs = packs;
        image = λ j x c hj hx hc.
            packed.image j x c (omega arith) hj (omega (arith, picture.width_set)) hc
            ∙ pixel-texture t.mapped s.output_width s.output_height b picture v.wide p.rgb_mode
                (src_row p b j) x c (omega (arith, picture.height_set, v.tall)) (omega arith) hc;
      }

  -- A tick of the capture worker that answers true, on a valid state, and then a blit of the
  -- published picture by the stream worker, which fits the client's buffer: the packing ends without
  -- a fault and without an early return. In the columns that both the blit and the picture have,
  -- every byte of every row of the blit is made of the pixel of the GPU's texture in the row that the
  -- blit's row shows, at the texture's own pitch. Of the blit's columns beyond the picture's width
  -- nothing is said.
  pub tick-pack_frame : HasPitch k → tick_video_capture k s ≡ some (true, s') → Wired p fb k s s'
  tick-pack_frame pitch e =
      Shown-Wired (published (tick_video_capture k s) e (tick-Ticked n k s pitch v))
    where
      published :
          (r : Option (Bool × VideoState))
          → r ≡ some (true, s')
          → Ends (Ticked n k (take_options s)) r
          → Shown n k (take_options s) s'
      published none e t = absurd t
      published (some (false, u)) e t = cc e
      published (some (true, u)) e t = let same : u ≡ s' = cc e in rw (← same) t
