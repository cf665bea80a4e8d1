-- ===== src/Render/Layout/Places.antt =====
-- `BoxLayout.draw` of src/labelfab/render/layout.py: where the children of a box stand.
use labelfab.Common.{
  ℕ, zero, suc, ◌+◌, ◌-◌, ◌*◌, ◌≤◌, ◌≡◌, refl, ap, sym, ◌∙◌, List, [], ◌∷◌, map, length, length-map,
  leb, ℤ, pos, negsuc, int_sub, arith, Bool-cases, inl, inr, Option, none, some,
}
use labelfab.Render.Layout.{
  Rect, BoxLayout, Direction, row, col, Align, start, center, end, stretch, sum, distribute,
  span_of, offset, rect_at, place_from, measured, mains_of, gaps, main_side, cross_side, main_of,
  cross_of, draw, measure_child,
}
use labelfab.Render.Layout.Budget.{slack, distribute-within, distribute-no_room, length-distribute}

-- Along the axis: the first pixel of a rectangle, and the pixel after its last.
abbrev pub first_pixel : Direction → Rect → ℕ
first_pixel row r = r.x
first_pixel col r = r.y

abbrev pub pixel_after : Direction → Rect → ℕ
pixel_after row r = r.x + r.w
pixel_after col r = r.y + r.h

abbrev pub other_axis : Direction → Direction
other_axis row = col
other_axis col = row

-- The rectangles stand one after the other from the pixel `from` on, `gap` pixels apart at least,
-- and none ends after `to`; across the axis, each stands between `low` and `high`.
abbrev pub InLine : Direction → ℕ → ℕ → ℕ → ℕ → ℕ → List (Option Rect) → Type 0
InLine dir gap from to low high [] = Unit
InLine dir gap from to low high (none ∷ rs) = InLine dir gap from to low high rs
InLine dir gap from to low high (some r ∷ rs) =
    (from ≤ first_pixel dir r)
    × (pixel_after dir r ≤ to)
    × (low ≤ first_pixel (other_axis dir) r)
    × (pixel_after (other_axis dir) r ≤ high)
    × InLine dir gap (pixel_after dir r + gap) to low high rs

InLine-later :
    (dir : Direction) (gap from next to low high : ℕ) (rs : List (Option Rect))
    → from ≤ next
    → InLine dir gap next to low high rs
    → InLine dir gap from to low high rs
InLine-later dir gap from next to low high [] le h = tt
InLine-later dir gap from next to low high (none ∷ rs) le h =
    InLine-later dir gap from next to low high rs le h
InLine-later dir gap from next to low high (some r ∷ rs) le (first, after, above, below, rest) =
    (omega arith, after, above, below, rest)

span-offset :
    (a : Align) (cross avail : ℕ)
    → offset a (span_of a cross avail) avail + span_of a cross avail ≤ avail
span-offset start cross avail = omega arith
span-offset center cross avail = omega arith
span-offset end cross avail = omega arith
span-offset stretch cross avail = omega arith

rect_at-sides :
    (dir : Direction) (main cross w h : ℕ)
    → let r = rect_at dir main cross w h in
      (first_pixel dir r ≡ main)
      × (pixel_after dir r ≡ main + w)
      × (first_pixel (other_axis dir) r ≡ cross)
      × (pixel_after (other_axis dir) r ≡ cross + h)
rect_at-sides row main cross w h = (refl, refl, refl, refl)
rect_at-sides col main cross w h = (refl, refl, refl, refl)

-- Placed from `cursor` on, children that leave room for the gaps between them stand before `to`.
place_from-InLine :
    (b : BoxLayout) (across avail edge cursor to : ℕ) (ms cs : List ℕ)
    → edge + cursor + sum ms + b.gap_px * length ms ≤ to + b.gap_px
    → InLine b.direction b.gap_px
        (edge + cursor)
        to
        across
        (across + avail)
        (place_from b across avail edge cursor ms cs)
unfolding sum place_from
place_from-InLine b across avail edge cursor to [] cs h = tt
place_from-InLine b across avail edge cursor to (m ∷ ms) [] h = tt
place_from-InLine b across avail edge cursor to (zero ∷ ms) (c ∷ cs) h =
    let next = cursor + (0 + b.gap_px) in
    InLine-later b.direction b.gap_px (edge + cursor) (edge + next) to across (across + avail)
      (place_from b across avail edge next ms cs) (omega arith)
      (place_from-InLine b across avail edge next to ms cs (omega arith))
place_from-InLine b across avail edge cursor to (suc m ∷ ms) (c ∷ cs) h =
    let next = cursor + (suc m + b.gap_px) in
    let span = span_of b.align c avail in
    let off = offset b.align span avail in
    let rect = rect_at b.direction (edge + cursor) (across + off) (suc m) span in
    let (first, after, low, high) =
      rect_at-sides b.direction (edge + cursor) (across + off) (suc m) span in
    let rest = place_from-InLine b across avail edge next to ms cs (omega arith) in
    (
      omega (arith, first),
      omega (arith, after, h),
      omega (arith, low),
      omega (arith, high, span-offset b.align c avail),
      InLine-later b.direction b.gap_px (pixel_after b.direction rect + b.gap_px) (edge + next) to
          across (across + avail) (place_from b across avail edge next ms cs) (omega (arith, after))
          rest,
    )

-- Children without any room are not drawn.
place_from-no_room :
    (b : BoxLayout) (across avail edge cursor to from low high : ℕ) (ms cs : List ℕ)
    → sum ms ≡ 0
    → InLine b.direction b.gap_px from to low high (place_from b across avail edge cursor ms cs)
unfolding sum place_from
place_from-no_room b across avail edge cursor to from low high [] cs h = tt
place_from-no_room b across avail edge cursor to from low high (m ∷ ms) [] h = tt
place_from-no_room b across avail edge cursor to from low high (zero ∷ ms) (c ∷ cs) h =
    place_from-no_room b across avail edge (cursor + (0 + b.gap_px)) to from low high ms cs
      (omega (arith, h))
place_from-no_room b across avail edge cursor to from low high (suc m ∷ ms) (c ∷ cs) h =
    absurd (omega arith)

length-naturals :
    (b : BoxLayout) (f : ℕ × ℕ → ℕ) (z : ℤ) (avail : ℕ)
    → length (map f (measured b z avail)) ≡ length b.children
length-naturals b f z avail =
    length-map f (measured b z avail)
    ∙ length-map (measure_child b.direction z (pos avail)) b.children

-- The budget is what the gaps leave of the room.
abbrev pub Budgeted : ℕ → ℕ → ℤ → Type 0
Budgeted room gaps (pos k) = k + gaps ≤ room
Budgeted room gaps (negsuc n) = Unit

int_sub-Budgeted : (room gaps : ℕ) → Budgeted room gaps (int_sub room gaps)
int_sub-Budgeted room gaps = elim (Bool-cases (leb gaps room)) [
  | inl enough ↦ rw enough (ground arith)
  | inr short ↦ rw short tt
]

gaps_le : (gap n : ℕ) → gap * n ≤ gap * (n - 1) + gap
gaps_le gap zero = omega arith
gaps_le gap (suc n) =
    let e : suc n - 1 ≡ n = omega arith in
    let f : gap * (suc n - 1) ≡ gap * n = ap (λ k. gap * k) e in omega (arith, f)

-- `place_from` on what `_distribute` decides, `room` being the pixels along the axis.
drawn :
    (b : BoxLayout) (across avail edge room : ℕ) (z : ℤ)
    → Budgeted room (gaps b) z
    → let ns = map (main_of b.direction) (measured b z avail) in
      InLine b.direction b.gap_px edge (edge + room + slack ns z) across (across + avail) (
        place_from b across avail edge 0
          (mains_of b z avail)
          (map (cross_of b.direction) (measured b z avail)))
drawn b across avail edge room (negsuc n) h =
    place_from-no_room b across avail edge 0 _ edge across (across + avail) _ _
      (distribute-no_room _ _ n)
drawn b across avail edge room (pos k) h =
    let ns = map (main_of b.direction) (measured b (pos k) avail) in
    let fs = map (λ c. c.flex) b.children in
    let n = length-naturals b (main_of b.direction) (pos k) avail in
    let same = length-distribute ns fs (pos k) in
    let count : b.gap_px * length (distribute ns fs (pos k)) ≡ b.gap_px * length b.children =
      ap (λ m. b.gap_px * m) (same ∙ n) in
    let within = distribute-within ns fs k (n ∙ sym (length-map (λ c. c.flex) b.children)) in
    let ms = mains_of b (pos k) avail in
    let cs = map (cross_of b.direction) (measured b (pos k) avail) in
    let to = edge + room + slack ns (pos k) in
    InLine-later b.direction b.gap_px edge (edge + 0) to across (across + avail)
      (place_from b across avail edge 0 ms cs) (omega arith)
      (place_from-InLine b across avail edge 0 to ms cs
        (omega (arith, h, within, count, gaps_le b.gap_px (length b.children))))

-- `draw` gives each child that is drawn a rectangle of its own: they stand in order along the axis,
-- the gap apart, inside the padding; where the children need more than the room, the last may reach
-- over the padding at the end by less pixels than there are children.
pub draw-InLine :
    (b : BoxLayout) (box : Rect)
    → let d = b.direction in
      let inner_w = box.w - b.padding_px * 2 in
      let inner_h = box.h - b.padding_px * 2 in
      let left = box.x + b.padding_px in
      let top = box.y + b.padding_px in
      let budget = int_sub (main_side d inner_w inner_h) (gaps b) in
      let avail = cross_side d inner_w inner_h in
      let over = slack (map (main_of d) (measured b budget avail)) budget in
      InLine d b.gap_px
        (main_side d left top)
        (main_side d left top + main_side d inner_w inner_h + over)
        (cross_side d left top)
        (cross_side d left top + avail)
        (draw b box)
unfolding draw
draw-InLine b box =
    let d = b.direction in
    let inner_w = box.w - b.padding_px * 2 in
    let inner_h = box.h - b.padding_px * 2 in
    let left = box.x + b.padding_px in
    let top = box.y + b.padding_px in
    drawn b (cross_side d left top) (cross_side d inner_w inner_h) (main_side d left top)
      (main_side d inner_w inner_h) (int_sub (main_side d inner_w inner_h) (gaps b))
      (int_sub-Budgeted (main_side d inner_w inner_h) (gaps b))
