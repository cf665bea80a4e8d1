-- ===== src/Render/Text/Fonts.antt =====
-- `TextDraw` of src/labelfab/render/elements.py: the largest size at which a text fits a box.
pub mod Search
pub mod Places
use labelfab.Common.{
  ℕ, zero, suc, ◌+◌, ◌-◌, ◌*◌, ◌/◌, min, max, Bool, true, false, not, ◌&&◌, ◌||◌, List, [], ◌∷◌,
  ◌++◌, Option, none, some, length, take, leb, ltb, ◌==◌, if◌then◌else◌, Result, ok, err, ◌>>=◌,
}
use labelfab.Render.Layout.{Rect}
use labelfab.Render.Text.{Text, is_empty, wrap}

-- What Pillow and Python's floats give: the font of a point size, whether a text is as narrow as a
-- width, the height of a line, the middle of two sizes and whether two sizes are 0.2 apart at most.
pub record Fonts {ℓ κ} (Size : Type ℓ) (Font : Type κ) : Type (ℓ ⊔ κ) where
  pub load : Size → Font
  pub fits : Font → ℕ → Text → Bool
  pub line_height : Font → ℕ
  pub middle : Size → Size → Size
  pub near : Size → Size → Bool
  pub is_space : ℕ → Bool

-- The fields of `TextElement` that the drawing reads.
pub record TextElement {ℓ} (Size : Type ℓ) : Type ℓ where
  pub value : Text
  pub max_lines : ℕ
  pub min_pt : Size
  pub max_pt : Size

pub data Overflow : Type 0 where
  layout_overflow : Overflow

abbrev pub ellipsis : ℕ
ellipsis = 8230

-- `lines[-1][:-1]`
abbrev pub without_last : Text → Text
without_last l = take (length l - 1) l

abbrev pub map_last : (Text → Text) → List Text → List Text
map_last f [] = []
map_last f (l ∷ []) = f l ∷ []
map_last f (l ∷ k ∷ ls) = l ∷ map_last f (k ∷ ls)

-- `_wrap` with `break_words` returns lines.
abbrev pub lines_of : Option (List Text) → List Text
lines_of none = []
lines_of (some lines) = lines

-- The top of each line.
unfoldable pub tops : ℕ → ℕ → List Text → List (ℕ × Text)
tops lh y [] = []
tops lh y (l ∷ ls) = (y, l) ∷ tops lh (y + lh) ls

module _ {ℓ κ} {Size : Type ℓ} {Font : Type κ} (fonts : Fonts Size Font)
    (spec : TextElement Size) where
  abbrev pub wrapped : Font → ℕ → Bool → Option (List Text)
  wrapped font width break_words =
      wrap fonts.is_space (fonts.fits font width) break_words spec.value

  -- Whether the lines fit the box, and the lines then.
  abbrev pub in_box : Font → ℕ → Option (List Text) → Bool
  in_box font height none = false
  in_box font height (some lines) =
      leb (length lines) spec.max_lines && leb (length lines * fonts.line_height font) height

  abbrev pub found : Font → Option (List Text) → Option (Font × List Text)
  found font none = none
  found font (some lines) = some (font, lines)

  -- The rounds of `_search` that are left.
  unfoldable pub search_from :
      ℕ → ℕ → ℕ → Bool → Size → Size → Option (Font × List Text) → Option (Font × List Text)
  search_from zero width height break_words lo hi best = best
  search_from (suc rounds) width height break_words lo hi best =
      let mid = fonts.middle lo hi in
      let font = fonts.load mid in
      let lines = wrapped font width break_words in
      let good = in_box font height lines in
      let rest =
        search_from rounds width height break_words (if good then mid else lo)
          (if good then hi else mid) (if good then found font lines else best) in
      if fonts.near lo hi then best else rest

  abbrev pub search : ℕ → ℕ → Bool → Option (Font × List Text)
  search width height break_words =
      search_from 24 width height break_words spec.min_pt spec.max_pt none

  -- `while lines[-1] and font.getlength(lines[-1] + "…") > width`
  unfoldable pub shorten : Font → ℕ → ℕ → Text → Text
  shorten font width zero l = l
  shorten font width (suc n) l =
      let rest = shorten font width n (without_last l) in
      if not (is_empty l) && not (fonts.fits font width (l ++ (ellipsis ∷ []))) then rest else l

  abbrev pub cut_line : Font → ℕ → Text → Text
  cut_line font width l = shorten font width (length l) l ++ (ellipsis ∷ [])

  abbrev pub truncated : Font → ℕ → ℕ → List Text → List Text
  truncated font width n lines =
      if ltb n (length lines) then map_last (cut_line font width) (take n lines) else lines

  -- Nothing fits: the text at the smallest size, cut.
  abbrev pub at_floor : ℕ → ℕ → Result Overflow (Font × List Text)
  at_floor width height =
      let font = fonts.load spec.min_pt in
      let lh = fonts.line_height font in
      let n = max 1 (min spec.max_lines (height / max 1 lh)) in
      let lines = truncated font width n (lines_of (wrapped font width true)) in
      if (length lines == 0) || ltb height lh then err layout_overflow else ok (font, lines)

  abbrev pub or_at_floor :
      ℕ
      → ℕ
      → Option (Font × List Text)
      → Option (Font × List Text)
      → Result Overflow (Font × List Text)
  or_at_floor width height (some best) _ = ok best
  or_at_floor width height none (some best) = ok best
  or_at_floor width height none none = at_floor width height

  -- `_fit`: whole words first.
  unfoldable pub fit : ℕ → ℕ → Result Overflow (Font × List Text)
  fit width height = or_at_floor width height (search width height false) (search width height true)

  abbrev pub centred : Rect → Font × List Text → List (ℕ × Text)
  centred box (font, lines) =
      let lh = fonts.line_height font in tops lh (box.y + (box.h - lh * length lines) / 2) lines

  -- `draw`: the lines that are drawn, with their tops. Where a line begins is up to its length.
  unfoldable pub draw : Rect → Result Overflow (List (ℕ × Text))
  draw box =
      if (box.w == 0) || (box.h == 0)
      then ok []
      else (fit box.w box.h >>= λ placed. ok (centred box placed))
