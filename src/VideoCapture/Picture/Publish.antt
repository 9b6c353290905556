-- ===== src/VideoCapture/Picture/Publish.antt =====
-- What the publication of a picture changes.
use mi_ster_cast.Prelude.{
  zero, ℕ, suc, ◌+◌, ◌-◌, ◌*◌, ◌^◌, ◌≤◌, ◌<◌, ◌≡◌, ◌≢◌, refl, sym, ◌∙◌, Bool, Option, some, List,
  [], ◌∷◌, length, get_elem?, set, take, replicate, length-append, length-take, length-replicate,
  length-set, get_elem?-set_self, get_elem?-set_ne, arith, if◌then◌else◌, mul_le_mul,
}
use mi_ster_cast.Prelude.Words.{u64}
use native.Mathlib.Decide.{ℕ_discrete}
use mi_ster_cast.Frame.{Bitmap}
use mi_ster_cast.Buffers.{buffer_count, successor, choose}
use mi_ster_cast.Buffers.Choice.{choose-lt, choose-fresh}
use mi_ster_cast.VideoCapture.Picture.{
  Mapped, resize, size_bitmap, fill_bitmap, Screens, publish_picture,
}
use mi_ster_cast.VideoCapture.Picture.Rows.{fill_rows-RowsFilled}

-- The buffer has a byte for each byte of the picture, and no more.
abbrev pub IsSized : Bitmap → Type 0
IsSized b = length b.buffer ≡ b.width * b.height * 4

pub record IsScreens (s : Screens) : Type 0 where
  pub three : length s.bitmaps ≡ buffer_count
  pub index : s.published < buffer_count
  pub sized : (j : ℕ) (b : Bitmap) → get_elem? s.bitmaps j ≡ some b → IsSized b

-- The picture of the texture, without the rest of each pitch.
pub record IsPicture (m : Mapped) (width height : ℕ) (b : Bitmap) : Type 0 where
  pub width_set : b.width ≡ width
  pub height_set : b.height ≡ height
  pub sized : IsSized b
  pub image :
      (r i : ℕ)
      → r < height
      → i < width * 4
      → get_elem? b.buffer (r * width * 4 + i) ≡ some (m.bytes (m.row_pitch * r + i))

get_elem?-lt :
    {A : Type 0} (xs : List A) (i : ℕ) → i < length xs → (x : A) × (get_elem? xs i ≡ some x)
get_elem?-lt [] i h = elim h [ ]
get_elem?-lt (x ∷ xs) zero h = (x, refl)
get_elem?-lt (x ∷ xs) (suc i) h = get_elem?-lt xs i (omega arith)

length-resize : (n : ℕ) (buffer : List ℕ) → length (resize n buffer) ≡ n
length-resize n buffer = omega (
  arith,
  length-append (take n buffer) (replicate (n - length buffer) 0),
  length-take n buffer,
  length-replicate {0} {A = ℕ} (n - length buffer) 0,
)

module _ (m : Mapped) (width height : ℕ) (pitch : m.row_pitch < 2 ^ 32) (wide : width < 2 ^ 16)
    (tall : height < 2 ^ 16) where
  size_bitmap-IsSized : (b : Bitmap) → IsSized b → record {
    sized : IsSized (size_bitmap width height b);
    width_set : (size_bitmap width height b).width ≡ width;
    height_set : (size_bitmap width height b).height ≡ height;
  }
  unfolding size_bitmap
  size_bitmap-IsSized b h =
      let low : width * height ≤ 2 ^ 16 * 2 ^ 16 =
        mul_le_mul width height (2 ^ 16) (2 ^ 16) (omega arith) (omega arith) in
      ground (arith, length-resize (u64 (u64 (width * height) * 4)) b.buffer)

  pub fill_bitmap-IsPicture :
      (b : Bitmap)
      → IsSized b
      → (b' : Bitmap) × (fill_bitmap m width height b ≡ some b') × IsPicture m width height b'
  unfolding fill_bitmap
  fill_bitmap-IsPicture b h =
      let sizing = size_bitmap-IsSized b h in
      let sized = size_bitmap width height b in
      let room : length sized.buffer ≡ height * width * 4 =
        sizing.sized ∙ rw (sizing.width_set, sizing.height_set) (omega arith) in
      let (buffer, run, rows) =
        fill_rows-RowsFilled m width height pitch wide tall height 0 sized.buffer (omega arith)
          (omega (arith, room)) in
      (
        record sized { buffer = buffer },
        rw run,
        record {
          width_set = sizing.width_set;
          height_set = sizing.height_set;
          sized = rows.size ∙ sizing.sized;
          image = λ r i hr hi. rows.written r i (omega arith) hr hi;
        },
      )

-- What a published picture changes: it goes to a buffer that is neither the published one nor the
-- leased one, the other buffers stay, and a preview is given the very bitmap that is published.
pub record Published (active : Option ℕ) (m : Mapped) (width height : ℕ) (preview : Bool)
    (s s' : Screens) : Type 0 where
  pub valid : IsScreens s'
  pub not_published : s'.published ≢ s.published
  pub not_leased : active ≢ some s'.published
  pub bitmap : Bitmap
  pub here : get_elem? s'.bitmaps s'.published ≡ some bitmap
  pub picture : IsPicture m width height bitmap
  pub others : (j : ℕ) → j ≢ s'.published → get_elem? s'.bitmaps j ≡ get_elem? s.bitmaps j
  pub shown : s'.previews ≡ (if preview then bitmap ∷ s.previews else s.previews)

module _ (active : Option ℕ) (m : Mapped) (width height : ℕ) (preview : Bool) (s : Screens)
    (pitch : m.row_pitch < 2 ^ 32) (wide : width < 2 ^ 16) (tall : height < 2 ^ 16)
    (valid : IsScreens s) where
  abbrev next : ℕ
  next = choose active (successor s.published)

  -- The state with the picture in its place.
  abbrev placed : Bitmap → Screens
  placed b = record {
    bitmaps = set s.bitmaps next b;
    published = next;
    previews = if preview then b ∷ s.previews else s.previews;
  }

  placed-Published :
      (b : Bitmap)
      → IsPicture m width height b
      → Published active m width height preview s (placed b)
  placed-Published b p = record {
    valid = record {
      three = length-set s.bitmaps next b ∙ valid.three;
      index = in_range;
      sized = λ j c e. elim (ℕ_discrete next j) [
        | yes same ↦ all_sized_at j c same e
        | no other ↦ valid.sized j c (sym (get_elem?-set_ne s.bitmaps b other) ∙ e)
      ];
    };
    not_published = (choose-fresh active s.published valid.index).0;
    not_leased = (choose-fresh active s.published valid.index).1;
    bitmap = b;
    here = at_next;
    picture = p;
    others = λ j other. get_elem?-set_ne s.bitmaps b (λ e. other (sym e));
    shown = refl;
  }
    where
      in_range : next < buffer_count
      in_range = choose-lt active s.published valid.index

      at_next : get_elem? (set s.bitmaps next b) next ≡ some b
      at_next = get_elem?-set_self s.bitmaps next b (omega (arith, in_range, valid.three))

      all_sized_at :
          (j : ℕ) (c : Bitmap) → next ≡ j → get_elem? (set s.bitmaps next b) j ≡ some c → IsSized c
      all_sized_at j c same e =
          let same_bitmap : b ≡ c = cc (at_next, same, e) in rw (← same_bitmap) p.sized

  pub publish-Published :
      (s' : Screens) × (publish_picture active m width height preview s ≡ some s')
      × Published active m width height preview s s'
  unfolding publish_picture
  publish-Published =
      let (old, found) =
        get_elem?-lt s.bitmaps next
          (omega (arith, choose-lt active s.published valid.index, valid.three)) in
      let (b, run, p) =
        fill_bitmap-IsPicture m width height pitch wide tall old (valid.sized next old found) in
      (placed b, rw (found, run), placed-Published b p)
