-- ===== src/Render/Text/Fonts/Places.antt =====
-- `TextDraw` of src/labelfab/render/elements.py: that a text stands in its box.
use labelfab.Common.{
  ℕ, suc, ◌+◌, ◌-◌, ◌*◌, ◌/◌, ◌≤◌, ◌<◌, ◌≡◌, inl, inr, refl, ap, min, max, true, false, ◌||◌, List,
  [], ◌∷◌, Option, none, some, length, ltb, ◌==◌, Result, ok, err, ◌>>=◌, All, Bool-cases, arith,
}
use labelfab.Render.Layout.{Rect}
use labelfab.Render.Text.{Text, blank, newline}
use labelfab.Render.Text.Wraps.{Fit}
use labelfab.Render.Text.Fonts.Search.{
  InBox, Best, search_from-Best, truncated-lines, floor_lines, length-truncated, room_for, Stacked,
  tops-Stacked,
}
use labelfab.Render.Text.Fonts.{
  Fonts, TextElement, Overflow, lines_of, wrapped, centred, truncated, at_floor, or_at_floor, fit,
  tops, draw,
}

length-tops : (lh y : ℕ) (lines : List Text) → length (tops lh y lines) ≡ length lines
unfolding tops
length-tops lh y [] = refl
length-tops lh y (l ∷ ls) = ap suc (length-tops lh (y + lh) ls)

tops-All :
    (P : Text → Type 0) (lh y : ℕ) (lines : List Text)
    → All P lines
    → All (λ (row : ℕ × Text). P row.1) (tops lh y lines)
unfolding tops
tops-All P lh y [] h = tt
tops-All P lh y (l ∷ ls) (first, rest) = (first, tops-All P lh (y + lh) ls rest)

tops-later :
    (lh from y to : ℕ) (lines : List Text)
    → from ≤ y
    → Stacked lh y to (tops lh y lines)
    → Stacked lh from to (tops lh y lines)
unfolding tops
tops-later lh from y to [] le h = tt
tops-later lh from y to (l ∷ ls) le (first, below, rest) = (omega arith, below, rest)

module _ {Size Font : Type 0} (fonts : Fonts Size Font) (spec : TextElement Size) where
  -- What `_fit` comes to: a placement, or an error when not even one line has room.
  abbrev pub Fitted : ℕ → ℕ → Result Overflow (Font × List Text) → Type 0
  Fitted width height (ok best) = InBox fonts spec width height best
  Fitted width height (err e) = height < fonts.line_height (fonts.load spec.min_pt)

  -- What `draw` comes to: lines in one font that stand in the box, at least one where the box has
  -- room, or an error when the box is lower than a line at the smallest size.
  abbrev pub Drawn : Rect → Result Overflow (List (ℕ × Text)) → Type 0
  Drawn box (ok rows) =
      (font : Font) × (length rows ≤ spec.max_lines)
      × (0 < box.w → 0 < box.h → 0 < length rows)
      × Stacked (fonts.line_height font) box.y (box.y + box.h) rows
      × All (λ (row : ℕ × Text). Fit (fonts.fits font box.w) row.1) rows
  Drawn box (err e) = box.h < fonts.line_height (fonts.load spec.min_pt)

  module _ (blank_space : fonts.is_space blank ≡ true) (line_space : fonts.is_space newline ≡ true)
      (some_lines : 0 < spec.max_lines) where
    at_floor-Fitted : (width height : ℕ) → Fitted width height (at_floor fonts spec width height)
    at_floor-Fitted width height =
        let font = fonts.load spec.min_pt in
        let lh = fonts.line_height font in
        let n = max 1 (min spec.max_lines (height / max 1 lh)) in
        let all = lines_of (wrapped fonts spec font width true) in
        let lines = truncated fonts spec font width n all in
        let (some_line, narrow) = floor_lines fonts spec width blank_space line_space in
        let (few, fit) = truncated-lines fonts spec font width n all narrow in
        let left = length-truncated fonts spec font width n all (omega arith) some_line in
        let filled : (length lines == 0) ≡ false = ground arith in
        elim (Bool-cases (ltb height lh)) [
          | inl low ↦ rw (filled, low) (ground arith)
          | inr high ↦
              rw (filled, high)
                (
                  left,
                  omega (arith, few),
                  room_for lh height spec.max_lines (length lines) (ground arith) few,
                  fit,
                )
        ]

    or_at_floor-Fitted :
        (width height : ℕ) (whole broken : Option (Font × List Text))
        → Best fonts spec width height whole
        → Best fonts spec width height broken
        → Fitted width height (or_at_floor fonts spec width height whole broken)
    or_at_floor-Fitted width height (some best) broken h k = h
    or_at_floor-Fitted width height none (some best) h k = k
    or_at_floor-Fitted width height none none h k = at_floor-Fitted width height

    fit-Fitted : (width height : ℕ) → Fitted width height (fit fonts spec width height)
    unfolding fit
    fit-Fitted width height =
        or_at_floor-Fitted width height _ _
          (search_from-Best fonts spec 24 width height false spec.min_pt spec.max_pt none tt)
          (search_from-Best fonts spec 24 width height true spec.min_pt spec.max_pt none tt)

    centred-Drawn :
        (box : Rect) (font : Font) (lines : List Text)
        → InBox fonts spec box.w box.h (font, lines)
        → Drawn box (ok (centred fonts spec box (font, lines)))
    centred-Drawn box font lines (some_line, few, low, narrow) =
        let lh = fonts.line_height font in
        let y = box.y + (box.h - lh * length lines) / 2 in
        let area : lh * length lines ≡ length lines * lh = omega arith in
        (
          font,
          omega (arith, few, length-tops lh y lines),
          λ _ _. omega (arith, some_line, length-tops lh y lines),
          tops-later lh box.y y (box.y + box.h) lines (omega arith)
              (tops-Stacked lh y (box.y + box.h) lines (omega (arith, low, area))),
          tops-All (Fit (fonts.fits font box.w)) lh y lines narrow,
        )

    drawn :
        (box : Rect) (placed : Result Overflow (Font × List Text))
        → Fitted box.w box.h placed
        → Drawn box (placed >>= λ best. ok (centred fonts spec box best))
    drawn box (ok (font, lines)) h = centred-Drawn box font lines h
    drawn box (err e) h = h

    draw-inside : (box : Rect) → Drawn box (draw fonts spec box)
    unfolding draw
    draw-inside box = elim (Bool-cases ((box.w == 0) || (box.h == 0))) [
      | inl empty ↦ rw empty (fonts.load spec.min_pt, omega arith, λ w h. ground arith, tt, tt)
      | inr room ↦ rw room (drawn box (fit fonts spec box.w box.h) (fit-Fitted box.w box.h))
    ]

-- Text is drawn inside its box: in one font, at most as many lines as are allowed, one under the
-- other between the top and the bottom of the box, each as narrow as the box or a single character,
-- and at least one where the box has any room. It is refused only in a box that is lower than a
-- line at the smallest size.
pub draw-Drawn :
    {Size Font : Type 0} (fonts : Fonts Size Font) (spec : TextElement Size) (box : Rect)
    → fonts.is_space blank ≡ true
    → fonts.is_space newline ≡ true
    → 0 < spec.max_lines
    → Drawn fonts spec box (draw fonts spec box)
draw-Drawn fonts spec box blank_space line_space some_lines =
    draw-inside fonts spec blank_space line_space some_lines box
