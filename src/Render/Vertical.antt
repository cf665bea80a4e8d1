-- ===== src/Render/Vertical.antt =====
-- src/labelfab/render/vertical.py: labels that stand up. Fonts are a parameter, a text is a list of code
-- points, and drawing is where the modules of the code and the lines of text stand. The matrix of a
-- code is what qrcode makes of the payload, a parameter.
pub mod Drawn
pub mod Codes
pub mod Lines
pub mod Stock
use labelfab.Common.{
  ℕ, zero, suc, ◌+◌, ◌-◌, ◌*◌, ◌/◌, ◌%◌, min, max, Bool, true, false, not, ◌&&◌, ◌||◌, List, [],
  ◌∷◌, ◌++◌, Option, none, some, length, take, leb, ltb, ◌==◌, if◌then◌else◌, Result, ok, err,
}
use labelfab.Render.Layout.{Rect}
use labelfab.Render.Text.{Text, blank, words_from, split_at, is_empty}

abbrev pub min_qr_module_px : ℕ
min_qr_module_px = 2

abbrev pub side_pad_px : ℕ
side_pad_px = 4

abbrev pub line_gap_px : ℕ
line_gap_px = 1

pub data QrError : Type 0 where
  qr_too_dense : QrError

-- `round(n / d)`: a half goes to the even neighbour.
unfoldable pub round_div : ℕ → ℕ → ℕ
round_div n d =
    let q = n / d in
    let r = 2 * (n % d) in if ltb r d then q else if ltb d r then q + 1 else q + q % 2

-- `edge(i)`: where the module `i` begins.
abbrev pub edge : ℕ → ℕ → ℕ → ℕ
edge width total i = round_div (i * width) total

-- The square of a module, the pixel after its last column and row included.
pub record Module : Type 0 where
  pub x0 : ℕ
  pub x1 : ℕ
  pub y0 : ℕ
  pub y1 : ℕ

abbrev pub module_at : ℕ → ℕ → ℕ → ℕ → ℕ → Module
module_at width total quiet r c = record {
  x0 = edge width total (c + quiet);
  x1 = edge width total (c + quiet + 1);
  y0 = edge width total (r + quiet);
  y1 = edge width total (r + quiet + 1);
}

abbrev pub module_if : Bool → Module → List Module
module_if true m = m ∷ []
module_if false m = []

unfoldable pub row_modules : ℕ → ℕ → ℕ → ℕ → ℕ → List Bool → List Module
row_modules width total quiet r c [] = []
row_modules width total quiet r c (dark ∷ row) =
    module_if dark (module_at width total quiet r c) ++ row_modules width total quiet r (suc c) row

unfoldable pub matrix_modules : ℕ → ℕ → ℕ → ℕ → List (List Bool) → List Module
matrix_modules width total quiet r [] = []
matrix_modules width total quiet r (row ∷ rows) =
    row_modules width total quiet r 0 row ++ matrix_modules width total quiet (suc r) rows

-- `scaled_qr`: the dark modules that are drawn, from the matrix of the payload. The modules are two
-- pixels wide at least, `width / total < 2` being `width < 2 * total`.
unfoldable pub scaled_qr : List (List Bool) → ℕ → ℕ → Result QrError (List Module)
unfolding matrix_modules row_modules
scaled_qr matrix width quiet =
    let total = length matrix + 2 * quiet in
    if ltb width (min_qr_module_px * total)
    then err qr_too_dense
    else ok (matrix_modules width total quiet 0 matrix)

-- What Pillow tells of a font: whether a text is as narrow as a width, and the height of the ink, for
-- bold or not, condensed or not, and a size in pixels.
pub record Faces : Type 0 where
  pub fits : Bool → Bool → ℕ → ℕ → Text → Bool
  pub ink_height : Bool → Bool → ℕ → ℕ
  pub is_space : ℕ → Bool
  pub is_dangling : ℕ → Bool

-- `..`
abbrev pub cut_mark : Text
cut_mark = 46 ∷ 46 ∷ []

-- `" ".join(words)`
unfoldable pub join_words : List Text → Text
join_words [] = []
join_words (w ∷ []) = w
join_words (w ∷ v ∷ ws) = w ++ (blank ∷ join_words (v ∷ ws))

-- `head.rstrip(_DANGLING)`
unfoldable pub rstrip : (ℕ → Bool) → Text → Text
rstrip drops [] = []
rstrip drops (c ∷ cs) =
    let rest = rstrip drops cs in if is_empty rest && drops c then [] else c ∷ rest

-- `while head and font.getlength(head + _CUT) > width: head = head[:-1]`
unfoldable pub shorten : (Text → Bool) → ℕ → Text → Text
shorten fits zero head = head
shorten fits (suc n) head =
    let rest = shorten fits n (take (length head - 1) head) in
    if is_empty head || fits (head ++ cut_mark) then head else rest

abbrev pub first_word : List Text → Text
first_word [] = []
first_word (w ∷ ws) = w

-- `for n in range(len(words) - 1, 0, -1)`
unfoldable pub whole_words : (ℕ → Bool) → (Text → Bool) → ℕ → List Text → Option Text
whole_words drops fits zero words = none
whole_words drops fits (suc n) words =
    let head = rstrip drops (join_words (take (suc n) words)) in
    let rest = whole_words drops fits n words in
    if not (is_empty head) && fits (head ++ cut_mark) then some (head ++ cut_mark) else rest

abbrev pub or_letters : (ℕ → Bool) → (Text → Bool) → List Text → Option Text → Text
or_letters drops fits words (some t) = t
or_letters drops fits words none =
    rstrip drops (shorten fits (length (first_word words)) (first_word words)) ++ cut_mark

-- `smart_cut`, with the width in `fits`
unfoldable pub smart_cut : (ℕ → Bool) → (ℕ → Bool) → (Text → Bool) → Text → Text
unfolding rstrip shorten whole_words
smart_cut is_space drops fits text =
    let words = words_from is_space [] text in
    if fits text
    then text
    else or_letters drops fits words (whole_words drops fits (length words - 1) words)

-- The sizes `size`, `size - 1`, …, as many as `n`: the first at which the text fits.
unfoldable pub largest : (ℕ → Bool) → ℕ → ℕ → Option ℕ
largest fits_at zero size = none
largest fits_at (suc n) size =
    let rest = largest fits_at n (size - 1) in if fits_at size then some size else rest

pub record Line : Type 0 where
  pub text : Text
  pub bold : Bool
  pub condensed : Bool
  pub size : ℕ

module _ (faces : Faces) where
  abbrev pub or_cut : Text → Bool → Bool → ℕ → ℕ → Option ℕ → Line
  or_cut text bold condensed width lo (some size) = record {
    text = text;
    bold = bold;
    condensed = condensed;
    size = size;
  }
  or_cut text bold condensed width lo none = record {
    text = smart_cut faces.is_space faces.is_dangling (faces.fits bold condensed lo width) text;
    bold = bold;
    condensed = condensed;
    size = lo;
  }

  -- `fit_line`, with the range of sizes in pixels
  unfoldable pub fit_line : Text → Bool → Bool → ℕ → ℕ → ℕ → Line
  unfolding largest smart_cut
  fit_line text bold condensed width lo hi =
      or_cut text bold condensed width lo
        (largest (λ size. faces.fits bold condensed size width text) (hi + 1 - lo) hi)
