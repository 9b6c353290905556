-- ===== src/VideoCapture/Picture/Rows.antt =====
-- The rows of the mapped texture in the bitmap, without the rest of the pitch.
use mi_ster_cast.Prelude.{
  ℕ, zero, suc, ◌+◌, ◌*◌, ◌^◌, ◌≤◌, ◌<◌, ◌≡◌, refl, ◌∙◌, ◌⊎◌, inl, inr, some, List, length,
  get_elem?, set, lt→ltb, length-set, get_elem?-set_self, get_elem?-set_ne, arith, mul_le_mul,
}
use mi_ster_cast.Prelude.Words.{u64}
use native.Mathlib.Decide.{dec_lt}
use mi_ster_cast.VideoCapture.Picture.{Mapped, fill_bytes, fill_rows}

-- `n` bytes from `s` stand at `d` of the buffer, and the rest of it is as before.
pub record Filled (bytes : ℕ → ℕ) (n s d : ℕ) (buffer buffer' : List ℕ) : Type 0 where
  pub size : length buffer' ≡ length buffer
  pub written : (i : ℕ) → i < n → get_elem? buffer' (d + i) ≡ some (bytes (s + i))
  pub kept : (j : ℕ) → (j < d) ⊎ (d + n ≤ j) → get_elem? buffer' j ≡ get_elem? buffer j

fill_bytes-Filled :
    (bytes : ℕ → ℕ) (n s d : ℕ) (buffer : List ℕ)
    → d + n ≤ length buffer
    → (buffer' : List ℕ) × (fill_bytes bytes n s d buffer ≡ some buffer')
      × Filled bytes n s d buffer buffer'
unfolding fill_bytes
fill_bytes-Filled bytes zero s d buffer h = (
  buffer,
  refl,
  record { size = refl; written = λ i lt. absurd (omega arith); kept = λ j o. refl },
)
fill_bytes-Filled bytes (suc n) s d buffer h =
    let first = set buffer d (bytes s) in
    let (buffer', run, f) =
      fill_bytes-Filled bytes n (s + 1) (d + 1) first
        (omega (arith, length-set buffer d (bytes s))) in
    (
      buffer',
      rw (lt→ltb d (length buffer) (omega arith)) run,
      record {
        size = f.size ∙ length-set buffer d (bytes s);
        written = λ i lt. byte buffer' f i lt;
        kept = λ j o. f.kept j (ground arith) ∙ get_elem?-set_ne buffer (bytes s) (ground arith);
      },
    )
  where
    byte :
        (buffer' : List ℕ)
        → Filled bytes n (s + 1) (d + 1) (set buffer d (bytes s)) buffer'
        → (i : ℕ) → i < suc n
        → get_elem? buffer' (d + i) ≡ some (bytes (s + i))
    byte buffer' f zero lt =
        let from : d + 0 ≡ d = omega arith in
        let at : s + 0 ≡ s = omega arith in
        rw (from, at)
          (f.kept d (inl (omega arith)) ∙ get_elem?-set_self buffer d (bytes s) (omega arith))
    byte buffer' f (suc i) lt =
        let from : d + suc i ≡ d + 1 + i = omega arith in
        let at : s + suc i ≡ s + 1 + i = omega arith in rw (from, at) (f.written i (omega arith))

-- The rows from `y` up to `y'` stand in the buffer, each `width` pixels of four bytes.
pub record RowsFilled (m : Mapped) (width y y' : ℕ) (buffer buffer' : List ℕ) : Type 0 where
  pub size : length buffer' ≡ length buffer
  pub written :
      (r i : ℕ)
      → y ≤ r
      → r < y'
      → i < width * 4
      → get_elem? buffer' (r * width * 4 + i) ≡ some (m.bytes (m.row_pitch * r + i))
  pub kept :
      (j : ℕ)
      → (j < y * width * 4) ⊎ (y' * width * 4 ≤ j)
      → get_elem? buffer' j ≡ get_elem? buffer j

module _ (m : Mapped) (width height : ℕ) (pitch : m.row_pitch < 2 ^ 32) (wide : width < 2 ^ 16)
    (tall : height < 2 ^ 16) where
  row-fits : (y : ℕ) → y < height → (y + 1) * width * 4 ≤ height * width * 4
  row-fits y h = omega (arith, mul_le_mul (y + 1) width height width (omega arith) (omega arith))

  row-Filled :
      (y : ℕ) (buffer : List ℕ)
      → y < height
      → height * width * 4 ≤ length buffer
      → (buffer' : List ℕ) × (fill_bytes m.bytes
            (u64 (width * 4))
            (u64 (m.row_pitch * y))
            (u64 (u64 (y * width) * 4))
            buffer
          ≡ some buffer')
        × Filled m.bytes (width * 4) (m.row_pitch * y) (y * width * 4) buffer buffer'
  row-Filled y buffer h holds =
      let low : y * width ≤ 2 ^ 16 * 2 ^ 16 =
        mul_le_mul y width (2 ^ 16) (2 ^ 16) (omega arith) (omega arith) in
      let from : m.row_pitch * y ≤ 2 ^ 32 * 2 ^ 16 =
        mul_le_mul m.row_pitch y (2 ^ 32) (2 ^ 16) (omega arith) (omega arith) in
      let bytes : u64 (width * 4) ≡ width * 4 = omega arith in
      let source : u64 (m.row_pitch * y) ≡ m.row_pitch * y = omega arith in
      let target : u64 (u64 (y * width) * 4) ≡ y * width * 4 = omega arith in
      rw (bytes, source, target)
        (fill_bytes-Filled m.bytes (width * 4) (m.row_pitch * y) (y * width * 4) buffer
          (omega (arith, row-fits y h)))

  RowsFilled-cons :
      (y y' : ℕ) (buffer first buffer' : List ℕ)
      → y < y'
      → Filled m.bytes (width * 4) (m.row_pitch * y) (y * width * 4) buffer first
      → RowsFilled m width (y + 1) y' first buffer'
      → RowsFilled m width y y' buffer buffer'
  RowsFilled-cons y y' buffer first buffer' h f rest = record {
    size = rest.size ∙ f.size;
    written = λ r i lo hi lt. elim (dec_lt y r) [
      | yes later ↦ rest.written r i (omega arith) hi lt
      | no now ↦
          let same : r ≡ y = omega arith in
          rw same (rest.kept (y * width * 4 + i) (inl (omega arith)) ∙ f.written i lt)
    ];
    kept = λ j o. rest.kept j (after j o) ∙ f.kept j (outside j o);
  }
    where
      below : (y + 1) * width * 4 ≤ y' * width * 4
      below = omega (arith, mul_le_mul (y + 1) width y' width (omega arith) (omega arith))

      after :
          (j : ℕ)
          → (j < y * width * 4) ⊎ (y' * width * 4 ≤ j)
          → (j < (y + 1) * width * 4) ⊎ (y' * width * 4 ≤ j)
      after j (inl lt) = inl (omega arith)
      after j (inr ge) = inr ge

      outside :
          (j : ℕ)
          → (j < y * width * 4) ⊎ (y' * width * 4 ≤ j)
          → (j < y * width * 4) ⊎ (y * width * 4 + width * 4 ≤ j)
      outside j (inl lt) = inl lt
      outside j (inr ge) = inr (omega (arith, below))

  pub fill_rows-RowsFilled :
      (n y : ℕ) (buffer : List ℕ)
      → y + n ≡ height
      → height * width * 4 ≤ length buffer
      → (buffer' : List ℕ) × (fill_rows m width n y buffer ≡ some buffer')
        × RowsFilled m width y height buffer buffer'
  unfolding fill_rows
  fill_rows-RowsFilled zero y buffer e holds = (
    buffer,
    refl,
    record { size = refl; written = λ r i lo hi lt. absurd (omega arith); kept = λ j o. refl },
  )
  fill_rows-RowsFilled (suc n) y buffer e holds =
      let (first, run₁, f) = row-Filled y buffer (omega arith) holds in
      let (buffer', run, rest) =
        fill_rows-RowsFilled n (y + 1) first (omega arith) (omega (arith, holds, f.size)) in
      (buffer', rw run₁ run, RowsFilled-cons y height buffer first buffer' (omega arith) f rest)
