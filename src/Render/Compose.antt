-- ===== src/Render/Compose.antt =====
-- src/labelfab/render/raster.py: `canvas`, `compose` and `compose_portrait`. A drawable is what it
-- measures and what it draws on a canvas of a size, both of which may fail; ink is a parameter. Pillow's turns by a
-- quarter exchange width and height.
use labelfab.Common.{ℕ, min, max, Bool, true, false, ltb, if◌then◌else◌, Result, ok, err, ◌>>=◌}
use labelfab.Contract.{TapeSpec, LengthMm, auto, pinned, mm_to_px}
use labelfab.Render.{Size}

-- src/labelfab/render/errors.py
pub data RenderError : Type 0 where
  qr_too_dense barcode_too_wide layout_overflow font_unavailable unknown_preset other : RenderError

pub record Drawable {ℓ} (Ink : Type ℓ) : Type ℓ where
  pub measure : ℕ → ℕ → Result RenderError (ℕ × ℕ)
  pub draw : Size → Result RenderError Ink

pub data Turn : Type 0 where
  upright turned_90 turned_270 : Turn

-- A rendered label: its size, the ink that was drawn and how that was turned.
pub record Picture {ℓ} (Ink : Type ℓ) : Type ℓ where
  pub size : Size
  pub ink : Ink
  pub turn : Turn

-- `MAX_AUTO_LENGTH_MM` and `MIN_LABEL_LENGTH_MM`
abbrev pub max_auto_length_mm : ℕ
max_auto_length_mm = 20300000

abbrev pub min_label_length_mm : ℕ
min_label_length_mm = 812000

unfoldable pub canvas : ℕ → ℕ → Size
canvas length_px tape_px = record { width = max 1 length_px; height = max 1 tape_px }

abbrev pub portrait_px : ℕ → LengthMm → Result RenderError ℕ
portrait_px natural auto = ok (max 1 natural)
portrait_px natural (pinned length_mm) =
    if ltb (mm_to_px length_mm) natural then err layout_overflow else ok (mm_to_px length_mm)

abbrev pub turn_of : Bool → Turn
turn_of true = turned_270
turn_of false = turned_90

module _ {ℓ} {Ink : Type ℓ} where
  abbrev pub upright_on : Drawable Ink → Size → Result RenderError (Picture Ink)
  upright_on d size = d.draw size >>= λ ink. ok (record { size = size; ink = ink; turn = upright })

  -- The length of the canvas: measured and clamped, or as it is pinned.
  abbrev pub landscape_px : Drawable Ink → ℕ → LengthMm → Result RenderError ℕ
  landscape_px d tape_px auto = d.measure (mm_to_px max_auto_length_mm) tape_px >>= λ (w, _).
      ok (max (mm_to_px min_label_length_mm) (min w (mm_to_px max_auto_length_mm)))
  landscape_px d tape_px (pinned length_mm) = ok (mm_to_px length_mm)

  unfoldable pub compose : Drawable Ink → TapeSpec → LengthMm → Result RenderError (Picture Ink)
  unfolding canvas
  compose d tape length_mm =
      let tape_px = mm_to_px tape.width_mm in
      landscape_px d tape_px length_mm >>= λ length_px. upright_on d (canvas length_px tape_px)

  -- The picture of an upright label, turned on its side.
  abbrev pub turned : Bool → Size → Ink → Picture Ink
  turned flip size ink = record {
    size = record { width = size.height; height = size.width };
    ink = ink;
    turn = turn_of flip;
  }

  unfoldable pub compose_portrait :
      Drawable Ink → TapeSpec → LengthMm → Bool → Result RenderError (Picture Ink)
  unfolding canvas
  compose_portrait d tape length_mm flip =
      let width_px = mm_to_px tape.width_mm in
      d.measure width_px (mm_to_px max_auto_length_mm) >>= λ (_, natural).
      portrait_px natural length_mm >>= λ length_px.
      let size = canvas width_px length_px in d.draw size >>= λ ink. ok (turned flip size ink)
