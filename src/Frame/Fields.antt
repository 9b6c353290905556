-- ===== src/Frame/Fields.antt =====
-- Which captured rows a blit shows: all of them in order, or every second one for a field.
use mi_ster_cast.Prelude.{ℕ, ◌-◌, ◌*◌, ◌/◌, ◌%◌, ◌^◌, ◌<◌, ◌≡◌, true, false, arith}
use mi_ster_cast.Frame.{Bitmap, Packer, src_row}

-- A progressive blit of a capture with as many rows shows row `y` in row `y`.
pub src_row_progressive :
    (p : Packer) (capture : Bitmap) (y : ℕ)
    → p.interlace ≡ false
    → capture.height ≡ p.height
    → p.height < 2 ^ 16
    → y < p.height
    → src_row p capture y ≡ y
unfolding src_row
src_row_progressive p capture y i e small h = ground arith

-- Of an interlaced mode whose capture has twice the rows of a field, every captured row is shown
-- by exactly one row of exactly one field: an odd row by field 0 and an even row by field 1, in row
-- r / 2 of the field.
pub fields_partition :
    (p : Packer) (capture : Bitmap) (r field y : ℕ)
    → p.interlace ≡ true
    → capture.height ≡ 2 * p.height
    → p.height < 2 ^ 16
    → r < capture.height
    → field < 2
    → y < p.height
    → (src_row (record p { field = 1 - r % 2 }) capture (r / 2) ≡ r)
      × (src_row (record p { field = field }) capture y ≡ r → (field ≡ 1 - r % 2) × (y ≡ r / 2))
unfolding src_row
fields_partition p capture r field y i e small hr hf hy = ground arith
