-- ===== src/Frame/Rows.antt =====
-- What one row of a blit writes, in each wire format.
use Prim.Native.Nat.{bit_and, bit_or}
use mi_ster_cast.Prelude.{
  ℕ, zero, suc, ◌+◌, ◌-◌, ◌*◌, ◌/◌, ◌%◌, ◌^◌, ◌≤◌, ◌<◌, ◌≡◌, refl, ◌∙◌, bit_and-ones, ◌⊎◌, inl,
  false, Option, some, List, [], ◌∷◌, length, get_or, arith, ◌==◌, if◌then◌else◌, bit_or-high_low,
  bit_and_step,
}
use mathlib.Core.Path.{fun_ext}
use native.Mathlib.Decide.{ℕ_discrete}
use mi_ster_cast.Modeline.{buffer_size, rgba8888, rgb565, bytes_per_pixel}
use mi_ster_cast.Frame.{
  Memory, update, store, load, copy_bytes, copy_888, copy_565, pixel_565, copy_row,
}

-- The bytes of the list are bytes.
abbrev pub IsBytes : List ℕ → Type 0
IsBytes src = (i : ℕ) → get_or src i 0 < 256

abbrev pub AllBytes : List ℕ → Type 0
AllBytes [] = Unit
AllBytes (v ∷ src) = (v < 256) × AllBytes src

pub IsBytes-of_all : (src : List ℕ) → AllBytes src → IsBytes src
IsBytes-of_all [] h i = omega arith
IsBytes-of_all (v ∷ src) h zero = h.0
IsBytes-of_all (v ∷ src) h (suc i) = IsBytes-of_all src h.1 i

-- RGB565 as arithmetic.
abbrev pub wire_565 : ℕ → ℕ → ℕ → ℕ
wire_565 b g r = r / 8 * 2048 + g / 4 * 32 + b / 8

-- Byte `c` on the wire of the captured pixel at address `p`.
abbrev pub wire_byte : ℕ → List ℕ → ℕ → ℕ → ℕ
wire_byte rgb_mode src p c =
    let pixel = wire_565 (get_or src p 0) (get_or src (p + 1) 0) (get_or src (p + 2) 0) in
    if rgb_mode == rgb565
    then (if c == 0 then pixel % 256 else pixel / 256)
    else get_or src (p + c) 0

-- `n` pixels of `size` bytes were written from `d` on, pixel `x` from the source at `s + 4 * x`, and
-- nothing else changed.
pub record RowWritten (size n s d : ℕ) (value : ℕ → ℕ → ℕ) (fb fb' : Memory) : Type 0 where
  pub written : (x c : ℕ) → x < n → c < size → fb' (d + size * x + c) ≡ value (s + 4 * x) c
  pub kept : (a : ℕ) → (a < d) ⊎ (d + size * n ≤ a) → fb' a ≡ fb a

load_in : (src : List ℕ) (i : ℕ) → i < length src → load src i ≡ some (get_or src i 0)
load_in [] i h = elim h [ ]
load_in (v ∷ src) zero h = refl
load_in (v ∷ src) (suc i) h = load_in src i (omega arith)

store_in : (fb : Memory) (a v : ℕ) → a < buffer_size → store fb a v ≡ some (update fb a v)
store_in fb a v h = ground arith

-- One pixel and then the others.
RowWritten-cons :
    (size n s d : ℕ) (value : ℕ → ℕ → ℕ) (fb fb₁ fb' : Memory)
    → ((c : ℕ) → c < size → fb₁ (d + c) ≡ value s c)
    → ((a : ℕ) → (a < d) ⊎ (d + size ≤ a) → fb₁ a ≡ fb a)
    → RowWritten size n (s + 4) (d + size) value fb₁ fb'
    → RowWritten size (suc n) s d value fb fb'
RowWritten-cons size n s d value fb fb₁ fb' first outside rest = record {
  written = writes;
  kept = λ a h. ground (arith, rest.kept a, outside a);
}
  where
    writes : (x c : ℕ) → x < suc n → c < size → fb' (d + size * x + c) ≡ value (s + 4 * x) c
    writes zero c hx hc =
        let to : d + size * 0 + c ≡ d + c = omega arith in
        let from : s + 4 * 0 ≡ s = omega arith in
        rw (to, from) (rest.kept (d + c) (inl (omega arith)) ∙ first c hc)
    writes (suc x) c hx hc =
        let to : d + size * suc x + c ≡ d + size + size * x + c = omega arith in
        let from : s + 4 * suc x ≡ s + 4 + 4 * x = omega arith in
        rw (to, from) (rest.written x c (omega arith) hc)

RowWritten-nil :
    (size s d : ℕ) (value : ℕ → ℕ → ℕ) (fb : Memory) → RowWritten size 0 s d value fb fb
RowWritten-nil size s d value fb = record { written = λ x c h. elim h [ ]; kept = λ a h. refl }

-- A row of `n` pixels that does not fault, and what it writes.
abbrev pub RowRuns :
    (ℕ → ℕ → Memory → Option Memory) → ℕ → (ℕ → ℕ → ℕ) → ℕ → ℕ → ℕ → Memory → Type 0
RowRuns row size value n s d fb =
    (fb' : Memory) × (row s d fb ≡ some fb') × RowWritten size n s d value fb fb'

copy_888-runs :
    (src : List ℕ) (n s d : ℕ) (fb : Memory)
    → s + 4 * n ≤ length src
    → d + 3 * n ≤ buffer_size
    → RowRuns (copy_888 n src) 3 (λ p c. get_or src (p + c) 0) n s d fb
unfolding copy_888
copy_888-runs src zero s d fb hs hd = (fb, refl, RowWritten-nil 3 s d _ fb)
copy_888-runs src (suc n) s d fb hs hd =
    let fb₁ : Memory = update fb d (get_or src s 0) in
    let fb₂ : Memory = update fb₁ (d + 1) (get_or src (s + 1) 0) in
    let fb₃ : Memory = update fb₂ (d + 2) (get_or src (s + 2) 0) in
    let (fb', run, rest) = copy_888-runs src n (s + 4) (d + 3) fb₃ (omega arith) (omega arith) in
    let run' : copy_888 (suc n) src s d fb ≡ some fb' =
      rw
        (
          load_in src s (omega arith),
          store_in fb d (get_or src s 0) (omega arith),
          load_in src (s + 1) (omega arith),
          store_in fb₁ (d + 1) (get_or src (s + 1) 0) (omega arith),
          load_in src (s + 2) (omega arith),
          store_in fb₂ (d + 2) (get_or src (s + 2) 0) (omega arith),
        )
        run in
    (
      fb',
      run',
      RowWritten-cons 3 n s d (λ p c. get_or src (p + c) 0) fb fb₃ fb' (λ c h. ground arith)
          (λ a h. ground arith) rest,
    )

-- The masks of the code keep the top bits.
mask_248 : (r : ℕ) → r < 256 → bit_and r 0xf8 ≡ r / 8 * 8
mask_248 r h = omega (
  arith,
  bit_and_step r 248,
  bit_and_step (r / 2) 124,
  bit_and_step (r / 2 / 2) 62,
  bit_and-ones 5 (r / 2 / 2 / 2) 31 refl,
)

mask_252 : (g : ℕ) → g < 256 → bit_and g 0xfc ≡ g / 4 * 4
mask_252 g h =
    omega (arith, bit_and_step g 252, bit_and_step (g / 2) 126, bit_and-ones 6 (g / 2 / 2) 63 refl)

-- The three fields share no bit, so the shifts and masks of the code are the arithmetic.
pub pixel_565-eq-wire_565 :
    (b g r : ℕ)
    → b < 256
    → g < 256
    → r < 256
    → (pixel_565 b g r ≡ wire_565 b g r) × (wire_565 b g r < 65536)
unfolding pixel_565
pixel_565-eq-wire_565 b g r hb hg hr =
    let red : bit_and r 0xf8 * 2 ^ 8 ≡ r / 8 * 2 ^ 11 = omega (arith, mask_248 r hr) in
    let green : bit_and g 0xfc * 2 ^ 3 ≡ g / 4 * 2 ^ 5 = omega (arith, mask_252 g hg) in
    let upper : bit_or (r / 8 * 2 ^ 11) (g / 4 * 2 ^ 5) ≡ (r / 8 * 2 ^ 6 + g / 4) * 2 ^ 5 =
      bit_or-high_low 11 (r / 8) (g / 4 * 2 ^ 5) (r / 8 * 2 ^ 11) refl (omega arith)
      ∙ omega arith in
    let whole : bit_or ((r / 8 * 2 ^ 6 + g / 4) * 2 ^ 5) (b / 8) ≡ wire_565 b g r =
      bit_or-high_low 5 (r / 8 * 2 ^ 6 + g / 4) (b / 8) _ refl (omega arith) ∙ omega arith in
    (rw (red, green, upper, whole) (omega arith), omega arith)

copy_565-runs :
    (src : List ℕ)
    → IsBytes src
    → (n s d : ℕ) (fb : Memory) → s + 4 * n ≤ length src
    → d + 2 * n ≤ buffer_size
    → RowRuns (copy_565 n src) 2 (wire_byte rgb565 src) n s d fb
unfolding copy_565
copy_565-runs src bytes zero s d fb hs hd = (fb, refl, RowWritten-nil 2 s d _ fb)
copy_565-runs src bytes (suc n) s d fb hs hd =
    let b = get_or src s 0 in
    let g = get_or src (s + 1) 0 in
    let r = get_or src (s + 2) 0 in
    let fb₁ : Memory = update fb d (pixel_565 b g r % 256) in
    let fb₂ : Memory = update fb₁ (d + 1) (pixel_565 b g r / 256) in
    let (fb', run, rest) =
      copy_565-runs src bytes n (s + 4) (d + 2) fb₂ (omega arith) (omega arith) in
    let pixel = pixel_565-eq-wire_565 b g r (bytes s) (bytes (s + 1)) (bytes (s + 2)) in
    let run' : copy_565 (suc n) src s d fb ≡ some fb' =
      rw
        (
          load_in src (s + 2) (omega arith),
          load_in src (s + 1) (omega arith),
          load_in src s (omega arith),
          store_in fb d (pixel_565 b g r % 256) (omega arith),
          store_in fb₁ (d + 1) (pixel_565 b g r / 256) (omega arith),
        )
        run in
    (
      fb',
      run',
      RowWritten-cons 2 n s d (wire_byte rgb565 src) fb fb₂ fb' (λ c h. ground (arith, pixel.0))
          (λ a h. ground arith) rest,
    )

-- `memcpy`: byte `i` of the target is byte `i` of the source.
copy_bytes-runs :
    (src : List ℕ) (n s d : ℕ) (fb : Memory)
    → s + n ≤ length src
    → d + n ≤ buffer_size
    → (fb' : Memory) × (copy_bytes n src s d fb ≡ some fb')
      × ((i : ℕ) → i < n → fb' (d + i) ≡ get_or src (s + i) 0)
      × ((a : ℕ) → (a < d) ⊎ (d + n ≤ a) → fb' a ≡ fb a)
unfolding copy_bytes
copy_bytes-runs src zero s d fb hs hd = (fb, refl, λ i h. elim h [ ], λ a h. refl)
copy_bytes-runs src (suc n) s d fb hs hd =
    let fb₁ : Memory = update fb d (get_or src s 0) in
    let (fb', run, writes, keeps) =
      copy_bytes-runs src n (s + 1) (d + 1) fb₁ (omega arith) (omega arith) in
    let run' : copy_bytes (suc n) src s d fb ≡ some fb' =
      rw (load_in src s (omega arith), store_in fb d (get_or src s 0) (omega arith)) run in
    (
      fb',
      run',
      λ i h. ground (arith, writes (i - 1), keeps (d + i)),
      λ a h. ground (arith, keeps a),
    )

copy_rgba-runs :
    (src : List ℕ) (n s d : ℕ) (fb : Memory)
    → s + 4 * n ≤ length src
    → d + 4 * n ≤ buffer_size
    → RowRuns (copy_bytes (n * 4) src) 4 (λ p c. get_or src (p + c) 0) n s d fb
copy_rgba-runs src n s d fb hs hd =
    let (fb', run, writes, keeps) =
      copy_bytes-runs src (n * 4) s d fb (omega arith) (omega arith) in
    (
      fb',
      run,
      record {
        written = λ x c hx hc. ground (arith, writes (4 * x + c));
        kept = λ a h. ground (arith, keeps a);
      },
    )

-- In every wire format a row that lies inside both buffers is copied without a fault; it writes each
-- of its pixels in the format and nothing else.
pub copy_row-runs :
    (rgb_mode : ℕ) (src : List ℕ)
    → IsBytes src
    → (n s d : ℕ) (fb : Memory) → s + 4 * n ≤ length src
    → d + bytes_per_pixel rgb_mode * n ≤ buffer_size
    → RowRuns (copy_row rgb_mode n src) (bytes_per_pixel rgb_mode) (wire_byte rgb_mode src) n s d fb
unfolding copy_row bytes_per_pixel
copy_row-runs rgb_mode src bytes n s d fb hs hd = elim (ℕ_discrete rgb_mode rgba8888) [
  | yes e ↦ rw e (copy_rgba-runs src n s d fb hs (rw e at hd))
  | no p ↦ elim (ℕ_discrete rgb_mode rgb565) [
    | yes e ↦ rw e (copy_565-runs src bytes n s d fb hs (rw e at hd))
    | no q ↦
        let not_rgba : (rgb_mode == rgba8888) ≡ false = ground arith in
        let not_565 : (rgb_mode == rgb565) ≡ false = ground arith in
        let plain : wire_byte rgb_mode src ≡ (λ p c. get_or src (p + c) 0) =
          fun_ext λ p. fun_ext λ c. rw not_565 in
        rw (not_rgba, not_565, plain) (copy_888-runs src n s d fb hs (rw (not_rgba, not_565) at hd))
  ]
]
