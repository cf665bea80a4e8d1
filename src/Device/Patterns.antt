-- ===== src/Device/Patterns.antt =====
-- src/labelfab/device/d30.py: `self_test` and `head_width_probe`, the patterns that are printed to learn
-- the geometry of a printer. What Pillow does with a picture of two levels is a parameter.
use labelfab.Common.{
  ℕ, zero, suc, ◌+◌, ◌-◌, ◌*◌, ◌/◌, ◌%◌, ◌==◌, if◌then◌else◌, Result, ok, err, ◌>>=◌, ℤ, pos,
  int_sub,
}
use labelfab.Device.Protocol.{Bytes}
use labelfab.Device.Raster.{DeviceRaster, is_well_shaped}

-- `D30GeometryError`, or the `ValueError` of Pillow or of `DeviceRaster`
pub data PatternError : Type 0 where
  geometry bad_box bad_shape : PatternError

pub data Fill : Type 0 where
  outlined filled : Fill

-- The left, upper, right and lower pixels of a box, or the ends of a line.
pub record Corners : Type 0 where
  pub x0 : ℕ
  pub y0 : ℕ
  pub x1 : ℤ
  pub y1 : ℤ

-- Drawing in black on a picture of two levels: a box whose corners are in the wrong order is refused.
pub record Pencil : Type 1 where
  pub Image : Type 0
  pub blank : ℕ → ℕ → Image
  pub rectangle : Fill → Corners → Image → Result PatternError Image
  pub line : Corners → Image → Image
  pub tobytes : Image → Bytes

module _ (p : Pencil) where
  open p use {Image, blank, rectangle, line, tobytes}

  abbrev pub packed : ℕ → ℕ → Image → Result PatternError DeviceRaster
  packed width_px height_px img =
      let r : DeviceRaster = record {
        width_px = width_px;
        height_px = height_px;
        pixels = tobytes img;
      } in
      if is_well_shaped r then ok r else err bad_shape

  -- The rules every 8 pixels from pixel `at`, `n` of them: along the upper edge, and along the left.
  abbrev pub column_rules : ℕ → ℕ → Image → Image
  column_rules at zero img = img
  column_rules at (suc n) img =
      column_rules (at + 8) n (line (record { x0 = at; y0 = 0; x1 = pos at; y1 = pos 5 }) img)

  abbrev pub row_rules : ℕ → ℕ → Image → Image
  row_rules at zero img = img
  row_rules at (suc n) img =
      row_rules (at + 8) n (line (record { x0 = 0; y0 = at; x1 = pos 5; y1 = pos at }) img)

  -- How many numbers are in `range(0, size, 8)`.
  abbrev pub eighths : ℕ → ℕ
  eighths size = (size + 7) / 8

  abbrev pub test_pattern : ℕ → ℕ → Result PatternError Image
  test_pattern w h = do
    framed ←
        rectangle outlined (record { x0 = 0; y0 = 0; x1 = int_sub w 1; y1 = int_sub h 1 })
          (blank w h)
    rectangle filled (record { x0 = 2; y0 = 2; x1 = pos 10; y1 = pos 6 })
        (row_rules 0 (eighths h) (column_rules 0 (eighths w) framed))

  unfoldable pub self_test : ℕ → ℕ → Result PatternError DeviceRaster
  self_test width_px height_px =
      if width_px % 8 == 0
      then test_pattern width_px height_px >>= packed width_px height_px
      else err geometry

  -- The steps from column `i` of bytes, `n` of them.
  abbrev pub steps : ℕ → ℕ → ℕ → Image → Result PatternError Image
  steps step_px i zero img = ok img
  steps step_px i (suc n) img =
      let corners : Corners = record {
        x0 = i * 8;
        y0 = 0;
        x1 = pos (i * 8 + 6);
        y1 = pos (step_px * (i + 1));
      } in
      rectangle filled corners img >>= steps step_px (suc i) n

  abbrev pub bar_px : ℕ
  bar_px = 4

  abbrev pub staircase : ℕ → ℕ → ℕ → Result PatternError Image
  staircase w h step_px = do
    stairs ← steps step_px 0 (w / 8) (blank w h)
    rectangle filled (record { x0 = 0; y0 = h - bar_px; x1 = int_sub w 1; y1 = int_sub h 1 }) stairs

  unfoldable pub head_width_probe : ℕ → ℕ → Result PatternError DeviceRaster
  head_width_probe width_px step_px =
      let height_px = width_px / 8 * step_px + bar_px + step_px in
      if width_px % 8 == 0
      then staircase width_px height_px step_px >>= packed width_px height_px
      else err geometry
