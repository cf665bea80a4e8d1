-- ===== src/Render.antt =====
-- src/labelfab/render/raster.py: `concat_strip`, as where it puts its labels and its cut marks.
-- An image counts by its width and height: pasting and drawing are Pillow's.
pub mod Lengths
pub mod Layout
pub mod Presets
pub mod Compose
pub mod Device
pub mod Job
pub mod Text
pub mod Vertical
use labelfab.Common.{
  ℕ, suc, ◌+◌, ◌-◌, ◌*◌, ◌/◌, Bool, true, false, ◌&&◌, List, [], ◌∷◌, ◌++◌, Option, none, some,
  length, leb, ◌==◌, if◌then◌else◌, Result, ok, err,
}
use labelfab.Contract.{mm_to_px}

pub record Size : Type 0 where
  pub width : ℕ
  pub height : ℕ

pub data StripError : Type 0 where
  no_labels unequal_heights : StripError

-- The strip: the left edge of each label, and the column of each cut mark.
pub record Strip : Type 0 where
  pub width : ℕ
  pub height : ℕ
  pub labels : List ℕ
  pub ticks : List ℕ

unfoldable pub sum_widths : List Size → ℕ
sum_widths [] = 0
sum_widths (l ∷ ls) = l.width + sum_widths ls

-- `len({im.height for im in labels}) != 1`, the first height being `h`
unfoldable pub same_heights : ℕ → List Size → Bool
same_heights h [] = true
same_heights h (l ∷ ls) = l.height == h && same_heights h ls

-- A mark is drawn in the middle of a separator of three columns or more.
abbrev pub ticks_at : ℕ → ℕ → List ℕ
ticks_at sep at = if leb 3 sep then (at + sep / 2) ∷ [] else []

-- The drawing so far: the cursor `x`, the labels and the marks.
pub record Drawn : Type 0 where
  pub x : ℕ
  pub labels : List ℕ
  pub ticks : List ℕ

-- `_separator`
abbrev pub separator : ℕ → Drawn → Drawn
separator sep d = record d { x = d.x + sep; ticks = d.ticks ++ ticks_at sep d.x }

abbrev pub paste : Size → Drawn → Drawn
paste l d = record d { x = d.x + l.width; labels = d.labels ++ (d.x ∷ []) }

abbrev pub separator_if : Bool → ℕ → Drawn → Drawn
separator_if true sep d = separator sep d
separator_if false sep d = d

-- `for i, im in enumerate(labels)`
unfoldable pub draw_labels : Bool → ℕ → List Size → Drawn → Drawn
draw_labels bookends sep [] d = d
draw_labels bookends sep (l ∷ []) d = separator_if bookends sep (paste l d)
draw_labels bookends sep (l ∷ k ∷ ls) d =
    draw_labels bookends sep (k ∷ ls) (separator sep (paste l d))

abbrev pub separators : Bool → ℕ → ℕ
separators true n = n + 1
separators false n = n - 1

abbrev pub draw_strip : Bool → ℕ → Size → List Size → Strip
draw_strip bookends sep l ls =
    let d =
      draw_labels bookends sep (l ∷ ls)
        (separator_if bookends sep (record { x = 0; labels = []; ticks = [] })) in
    record {
      width = sum_widths (l ∷ ls) + sep * separators bookends (length (l ∷ ls));
      height = l.height;
      labels = d.labels;
      ticks = d.ticks;
    }

unfoldable pub concat_strip : List Size → ℕ → Bool → Result StripError Strip
unfolding sum_widths same_heights draw_labels
concat_strip [] separator_mm bookends = err no_labels
concat_strip (l ∷ ls) separator_mm bookends =
    if same_heights l.height ls
    then ok (draw_strip bookends (mm_to_px separator_mm) l ls)
    else err unequal_heights
