-- ===== src/Modeline/Classify.antt =====
-- What `ValidateModelineFor` accepts and refuses, against an independent description of a mode that
-- the core can sync and the client's buffer can hold.
use mi_ster_cast.Prelude.{
  ℕ, suc, ◌*◌, ◌/◌, ◌%◌, ◌^◌, ◌≤◌, ◌<◌, ◌≡◌, ◌⊎◌, ◌↔◌, inl, inr, refl, Bool, true, false, ap, arith,
  mul_le_mul, mul-pos, Bool-cases, if◌then◌else◌,
}
use mi_ster_cast.Prelude.Int.{pos, negsuc}
use mi_ster_cast.Prelude.Double.{Double, is_finite, le_zero, nan, infinite, finite}
use mi_ster_cast.Modeline.{
  Modeline, Verdict, mode_ok, malformed, over_byte_budget, over_crt_envelope, buffer_size,
  crt_envelope_width, crt_envelope_height, bytes_per_pixel, bad_active, bad_horizontal,
  bad_vertical, frame_bytes, over_envelope, validate_modeline_for, default_mode, rgb888,
}

-- The integer fields fit uint16_t.
pub record IsU16Mode (m : Modeline) : Type 0 where
  pub hactive_u16 : m.hactive < 2 ^ 16
  pub vactive_u16 : m.vactive < 2 ^ 16

-- A clock that is a positive real number.
abbrev pub IsPositiveClock : Double → Type 0
IsPositiveClock d = (n : ℕ) × (k : ℕ) × (d ≡ finite (pos (suc n)) k)

-- Blanking encloses a non-empty active area, and an interlaced height is even.
pub record IsWellFormed (m : Modeline) : Type 0 where
  pub clock : IsPositiveClock m.pclock
  pub wide : 0 < m.hactive
  pub tall : 0 < m.vactive
  pub even_fields : m.interlace ≡ true → m.vactive % 2 ≡ 0
  pub h_begin : m.hactive ≤ m.hbegin
  pub h_end : m.hbegin ≤ m.hend
  pub h_total : m.hend < m.htotal
  pub v_begin : m.vactive ≤ m.vbegin
  pub v_end : m.vbegin ≤ m.vend
  pub v_total : m.vend < m.vtotal

-- The rows of one blit: a field of an interlaced mode has half of them.
abbrev pub packed_rows : Modeline → ℕ
packed_rows m = if m.interlace then m.vactive / 2 else m.vactive

-- The bytes of one blit.
abbrev pub blit_bytes : Modeline → ℕ → ℕ
blit_bytes m rgb_mode = m.hactive * packed_rows m * bytes_per_pixel rgb_mode

abbrev pub InEnvelope : Modeline → Type 0
InEnvelope m = (m.hactive ≤ crt_envelope_width) × (m.vactive ≤ crt_envelope_height)

pub bytes_per_pixel_bounds :
    (rgb_mode : ℕ) → (2 ≤ bytes_per_pixel rgb_mode) × (bytes_per_pixel rgb_mode ≤ 4)
unfolding bytes_per_pixel
bytes_per_pixel_bounds rgb_mode = ground arith

clock-IsPositive : (d : Double) → is_finite d ≡ true → le_zero d ≡ false → IsPositiveClock d
clock-IsPositive nan f p = cc
clock-IsPositive (infinite negative) f p = cc
clock-IsPositive (finite (pos ℕ.zero) k) f p = cc
clock-IsPositive (finite (pos (suc n)) k) f p = (n, k, refl)
clock-IsPositive (finite (negsuc n) k) f p = cc

positive-clock : (d : Double) → IsPositiveClock d → (is_finite d ≡ true) × (le_zero d ≡ false)
positive-clock d (n, k, e) = ground arith

IsWellFormed-of_tests :
    (m : Modeline)
    → bad_active m ≡ false
    → bad_horizontal m ≡ false
    → bad_vertical m ≡ false
    → IsWellFormed m
unfolding bad_active bad_horizontal bad_vertical
IsWellFormed-of_tests m a h v = record {
  clock = clock-IsPositive m.pclock (ground arith) (ground arith);
  wide = ground arith;
  tall = ground arith;
  even_fields = ground arith;
  h_begin = ground arith;
  h_end = ground arith;
  h_total = ground arith;
  v_begin = ground arith;
  v_end = ground arith;
  v_total = ground arith;
}

tests_of_IsWellFormed :
    (m : Modeline)
    → IsWellFormed m
    → (bad_active m ≡ false) × (bad_horizontal m ≡ false) × (bad_vertical m ≡ false)
unfolding bad_active bad_horizontal bad_vertical
tests_of_IsWellFormed m w = ground (arith, positive-clock m.pclock w.clock, w.even_fields)

-- The products of the code stay far below 2 ^ 64.
byte_products :
    (m : Modeline) (rgb_mode : ℕ)
    → IsU16Mode m
    → (m.hactive * m.vactive ≤ 65536 * 65536)
      × (m.hactive * m.vactive * bytes_per_pixel rgb_mode ≤ 65536 * 65536 * 4)
byte_products m rgb_mode u = (area, mul_le_mul _ _ _ _ area (bytes_per_pixel_bounds rgb_mode).1)
  where
    area : m.hactive * m.vactive ≤ 65536 * 65536
    area = mul_le_mul m.hactive m.vactive 65536 65536 (omega arith) (omega arith)

even_rows : (w v b : ℕ) → v % 2 ≡ 0 → w * v * b ≡ 2 * (w * (v / 2) * b)
even_rows w v b e =
    let half : v ≡ 2 * (v / 2) = omega arith in omega (arith, ap (λ t. w * t * b) half)

-- No 64-bit product of the code wraps, and halving the even rows halves the bytes.
pub frame_bytes-eq-blit_bytes :
    (m : Modeline) (rgb_mode : ℕ)
    → IsU16Mode m
    → (m.interlace ≡ true → m.vactive % 2 ≡ 0)
    → frame_bytes m rgb_mode ≡ blit_bytes m rgb_mode
unfolding frame_bytes
frame_bytes-eq-blit_bytes m rgb_mode u even =
    ground
      (arith, byte_products m rgb_mode u, even_rows m.hactive m.vactive (bytes_per_pixel rgb_mode))

-- Everything that `ValidateModelineFor` can answer, and exactly when.
pub record Classified (m : Modeline) (rgb_mode : ℕ) (allow : Bool) (v : Verdict) : Type 0 where
  pub accepts :
      (v ≡ mode_ok)
      ↔ (IsWellFormed m × (blit_bytes m rgb_mode ≤ buffer_size) × ((allow ≡ true) ⊎ InEnvelope m))
  pub refuses_shape : (v ≡ malformed) ↔ (¬ IsWellFormed m)
  pub refuses_size :
      (v ≡ over_byte_budget) ↔ (IsWellFormed m × (buffer_size < blit_bytes m rgb_mode))
  pub refuses_crt : (v ≡ over_crt_envelope) ↔ (
      IsWellFormed m × (blit_bytes m rgb_mode ≤ buffer_size) × (allow ≡ false) × (¬ InEnvelope m))

after_shape :
    (m : Modeline) (rgb_mode : ℕ) (allow : Bool)
    → IsU16Mode m
    → IsWellFormed m
    → Classified m rgb_mode allow (validate_modeline_for m rgb_mode allow)
unfolding validate_modeline_for over_envelope
after_shape m rgb_mode allow u w =
    ground (arith, tests_of_IsWellFormed m w, frame_bytes-eq-blit_bytes m rgb_mode u w.even_fields)

-- One failed shape test decides the verdict.
refused_shape :
    (m : Modeline) (rgb_mode : ℕ) (allow : Bool)
    → (bad_active m ≡ true) ⊎ (bad_horizontal m ≡ true) ⊎ (bad_vertical m ≡ true)
    → Classified m rgb_mode allow (validate_modeline_for m rgb_mode allow)
unfolding validate_modeline_for
refused_shape m rgb_mode allow h = ground (arith, tests_of_IsWellFormed m)

-- For fields that fit uint16_t, the verdict is `mode_ok` exactly for a well-formed mode whose blit
-- fits the client's buffer and which is inside the CRT envelope or allowed past it; it is
-- `malformed` exactly for a mode that is not well-formed; the byte budget is reported exactly for a
-- well-formed mode that is too large, and the envelope exactly for a well-formed mode that fits the
-- buffer, lies outside the envelope and is not allowed past it.
pub validate_classifies :
    (m : Modeline) (rgb_mode : ℕ) (allow : Bool)
    → IsU16Mode m
    → Classified m rgb_mode allow (validate_modeline_for m rgb_mode allow)
validate_classifies m rgb_mode allow u = elim (Bool-cases (bad_active m)) [
  | inl a ↦ refused_shape m rgb_mode allow (inl a)
  | inr a ↦ elim (Bool-cases (bad_horizontal m)) [
    | inl h ↦ refused_shape m rgb_mode allow (inr (inl h))
    | inr h ↦ elim (Bool-cases (bad_vertical m)) [
      | inl v ↦ refused_shape m rgb_mode allow (inr (inr v))
      | inr v ↦ after_shape m rgb_mode allow u (IsWellFormed-of_tests m a h v)
    ]
  ]
]

packed_rows-pos : (m : Modeline) → IsWellFormed m → 0 < packed_rows m
packed_rows-pos m w = ground (arith, w.even_fields, w.tall)

-- A mode with uint16_t fields that passes validation has a non-empty blit that fits the client's
-- frame buffer, whatever the oversize setting.
pub accepted-fits :
    (m : Modeline) (rgb_mode : ℕ) (allow : Bool)
    → IsU16Mode m
    → validate_modeline_for m rgb_mode allow ≡ mode_ok
    → IsWellFormed m × (0 < blit_bytes m rgb_mode) × (blit_bytes m rgb_mode ≤ buffer_size)
accepted-fits m rgb_mode allow u e =
    let (w, fits, crt) = (validate_classifies m rgb_mode allow u).accepts.0 e in
    (w, mul-pos _ _ (mul-pos _ _ w.wide rows) bytes, fits)
  where
    rows : 0 < packed_rows m
    rows = packed_rows-pos m ((validate_classifies m rgb_mode allow u).accepts.0 e).0

    bytes : 0 < bytes_per_pixel rgb_mode
    bytes = omega (arith, bytes_per_pixel_bounds rgb_mode)

-- Acceptance alone shows the shape, whatever the sizes.
pub accepted-IsWellFormed :
    (m : Modeline) (rgb_mode : ℕ) (allow : Bool)
    → validate_modeline_for m rgb_mode allow ≡ mode_ok
    → IsWellFormed m
unfolding validate_modeline_for
accepted-IsWellFormed m rgb_mode allow e =
    IsWellFormed-of_tests m (ground arith) (ground arith) (ground arith)

-- The default mode of `Initialize` is accepted.
pub default_accepted : validate_modeline_for default_mode rgb888 false ≡ mode_ok
unfolding validate_modeline_for bad_active bad_horizontal bad_vertical frame_bytes bytes_per_pixel
    over_envelope
default_accepted = refl
