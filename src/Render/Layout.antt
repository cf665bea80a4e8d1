-- ===== src/Render/Layout.antt =====
-- src/labelfab/render/layout.py: the solver that sizes and places the children of a box. A flex
-- weight is a whole number of some unit, and its division exact; a child is drawn by its own code,
-- so drawing a box is the rectangle that each child is given.
pub mod Shares
pub mod Budget
pub mod Places
pub mod Measures
use labelfab.Common.{
  ℕ, zero, suc, ◌+◌, ◌-◌, ◌*◌, ◌/◌, min, max, Bool, true, false, List, [], ◌∷◌, map, Option, none,
  some, length, ltb, ◌==◌, if◌then◌else◌, ℤ, pos, negsuc, int_sub, int_minus, to_nat,
}

-- `Rect`
pub record Rect : Type 0 where
  pub x : ℕ
  pub y : ℕ
  pub w : ℕ
  pub h : ℕ

-- `Drawable`: its natural size in an available area, and its weight.
pub record Child : Type 0 where
  pub measure : ℤ → ℤ → ℕ × ℕ
  pub flex : ℕ

unfoldable pub sum : List ℕ → ℕ
sum [] = 0
sum (n ∷ ns) = n + sum ns

-- `sizes[i] += int(leftover * f / total_flex)`
unfoldable pub grow : ℕ → ℕ → List ℕ → List ℕ → List ℕ
grow leftover total (s ∷ sizes) (f ∷ flexes) =
    (if ltb 0 f then s + leftover * f / total else s) ∷ grow leftover total sizes flexes
grow leftover total sizes _ = sizes

-- `max(range(len(sizes)), key=lambda i: flexes[i])`: the first of the largest.
unfoldable pub widest_from : ℕ → ℕ → ℕ → List ℕ → ℕ
widest_from best f i [] = best
widest_from best f i (g ∷ flexes) =
    widest_from (if ltb f g then i else best) (max f g) (suc i) flexes

abbrev pub widest : List ℕ → ℕ
widest [] = 0
widest (f ∷ flexes) = widest_from 0 f 1 flexes

unfoldable pub add_at : ℕ → ℕ → List ℕ → List ℕ
add_at i n [] = []
add_at zero n (s ∷ sizes) = (s + n) ∷ sizes
add_at (suc i) n (s ∷ sizes) = s ∷ add_at i n sizes

-- `leftover > 0`
abbrev pub enlarge : List ℕ → List ℕ → ℕ → ℕ → List ℕ
enlarge sizes flexes leftover budget =
    let total = sum flexes in
    let grown = grow leftover total sizes flexes in
    if total == 0 then sizes else add_at (widest flexes) (budget - sum grown) grown

-- `sum(sizes[i] for i, f in enumerate(flexes) if f > 0)`
unfoldable pub elastic_of : List ℕ → List ℕ → ℕ
elastic_of (s ∷ sizes) (f ∷ flexes) = (if ltb 0 f then s else 0) + elastic_of sizes flexes
elastic_of sizes _ = 0

-- `sizes[i] -= int(take * sizes[i] / elastic)`
unfoldable pub shrink_flex : ℕ → ℕ → List ℕ → List ℕ → List ℕ
shrink_flex take elastic (s ∷ sizes) (f ∷ flexes) =
    (if ltb 0 f then s - take * s / elastic else s) ∷ shrink_flex take elastic sizes flexes
shrink_flex take elastic sizes _ = sizes

-- `max(0, sizes[i] - int(still_over * sizes[i] / total))`
unfoldable pub shrink_all : ℕ → ℕ → List ℕ → List ℕ
shrink_all over total [] = []
shrink_all over total (s ∷ sizes) = (s - over * s / total) ∷ shrink_all over total sizes

-- `sum(sizes) - budget`, or 0 where that is negative
abbrev pub excess : ℕ → ℤ → ℕ
excess total (pos budget) = total - budget
excess total (negsuc n) = total + suc n

abbrev pub squeeze : List ℕ → ℤ → List ℕ
squeeze sizes budget =
    let over = excess (sum sizes) budget in
    let total = if sum sizes == 0 then 1 else sum sizes in
    if ltb 0 over then shrink_all over total sizes else sizes

-- `leftover < 0`, by `missing` pixels
abbrev pub reduce : List ℕ → List ℕ → ℕ → ℤ → List ℕ
reduce sizes flexes missing budget =
    let elastic = elastic_of sizes flexes in
    let taken = shrink_flex (min missing elastic) elastic sizes flexes in
    squeeze (if ltb 0 elastic then taken else sizes) budget

abbrev pub share_out : List ℕ → List ℕ → ℤ → ℤ → List ℕ
share_out sizes flexes (pos zero) budget = sizes
share_out sizes flexes (pos (suc n)) budget = enlarge sizes flexes (suc n) (to_nat budget)
share_out sizes flexes (negsuc n) budget = reduce sizes flexes (suc n) budget

-- `_distribute`
unfoldable pub distribute : List ℕ → List ℕ → ℤ → List ℕ
distribute naturals flexes budget =
    share_out naturals flexes (int_minus budget (sum naturals)) budget

pub data Direction : Type 0 where
  row col : Direction

pub data Align : Type 0 where
  start center end stretch : Align

pub record BoxLayout : Type 0 where
  pub children : List Child
  pub direction : Direction
  pub gap_px : ℕ
  pub padding_px : ℕ
  pub align : Align
  pub flex : ℕ

-- `cw if self._row else ch`, and the other way round
abbrev pub main_of : Direction → ℕ × ℕ → ℕ
main_of row (w, h) = w
main_of col (w, h) = h

abbrev pub cross_of : Direction → ℕ × ℕ → ℕ
cross_of row (w, h) = h
cross_of col (w, h) = w

abbrev pub measure_child : Direction → ℤ → ℤ → Child → ℕ × ℕ
measure_child row main cross c = c.measure main cross
measure_child col main cross c = c.measure cross main

abbrev pub inner : BoxLayout → ℤ → ℕ
inner b n = to_nat n - b.padding_px * 2

abbrev pub gaps : BoxLayout → ℕ
gaps b = b.gap_px * (length b.children - 1)

-- The loop of `measure`: the pixels so far along the main axis, and the widest child across it.
unfoldable pub measure_from : Direction → ℤ → ℕ → List Child → ℕ → ℕ → ℕ × ℕ
measure_from dir budget cross_avail [] total widest = (total, widest)
measure_from dir budget cross_avail (c ∷ cs) total widest =
    let size = measure_child dir (pos (to_nat (int_minus budget total))) (pos cross_avail) c in
    measure_from dir budget cross_avail cs (total + main_of dir size)
      (max widest (cross_of dir size))

abbrev pub oriented : Direction → ℕ → ℕ → ℕ × ℕ
oriented row main cross = (main, cross)
oriented col main cross = (cross, main)

-- `inner_w if self._row else inner_h`, and the other way round
abbrev pub main_side : Direction → ℕ → ℕ → ℕ
main_side row w h = w
main_side col w h = h

abbrev pub cross_side : Direction → ℕ → ℕ → ℕ
cross_side row w h = h
cross_side col w h = w

unfoldable pub measure : BoxLayout → ℤ → ℤ → ℕ × ℕ
measure b avail_w avail_h =
    let w = inner b avail_w in
    let h = inner b avail_h in
    let budget = int_sub (main_side b.direction w h) (gaps b) in
    let (total, widest) =
      measure_from b.direction budget (cross_side b.direction w h) b.children 0 0 in
    oriented b.direction (total + gaps b + b.padding_px * 2) (widest + b.padding_px * 2)

-- A box inside another.
abbrev pub as_child : BoxLayout → Child
as_child b = record { measure = measure b; flex = b.flex }

abbrev pub span_of : Align → ℕ → ℕ → ℕ
span_of stretch cross avail = avail
span_of _ cross avail = min cross avail

abbrev pub offset : Align → ℕ → ℕ → ℕ
offset start span avail = 0
offset stretch span avail = 0
offset end span avail = avail - span
offset center span avail = (avail - span) / 2

abbrev pub rect_at : Direction → ℕ → ℕ → ℕ → ℕ → Rect
rect_at row main cross w h = record { x = main; y = cross; w = w; h = h }
rect_at col main cross w h = record { x = cross; y = main; w = h; h = w }

-- `if main <= 0: continue`, else the child is drawn into the rectangle.
abbrev pub unless_empty : ℕ → Rect → Option Rect
unless_empty zero rect = none
unless_empty (suc n) rect = some rect

-- The loop of `draw` from the pixel `at` of the main axis: the rectangle of each child that gets any
-- room.
unfoldable pub place_from : BoxLayout → ℕ → ℕ → ℕ → ℕ → List ℕ → List ℕ → List (Option Rect)
place_from b across cross_avail edge cursor (main ∷ mains) (cross ∷ crosses) =
    let span = span_of b.align cross cross_avail in
    let off = offset b.align span cross_avail in
    let rect = rect_at b.direction (edge + cursor) (across + off) main span in
    unless_empty main rect
    ∷ place_from b across cross_avail edge (cursor + (main + b.gap_px)) mains crosses
place_from b across cross_avail edge cursor _ _ = []

-- The sizes along the main axis that `draw` decides on.
abbrev pub measured : BoxLayout → ℤ → ℕ → List (ℕ × ℕ)
measured b budget cross_avail = map (measure_child b.direction budget (pos cross_avail)) b.children

abbrev pub mains_of : BoxLayout → ℤ → ℕ → List ℕ
mains_of b budget cross_avail =
    distribute (map (main_of b.direction) (measured b budget cross_avail))
      (map (λ c. c.flex) b.children) budget

-- `draw`: the rectangle that each child is given, none for one that is not drawn.
unfoldable pub draw : BoxLayout → Rect → List (Option Rect)
draw b box =
    let w = box.w - b.padding_px * 2 in
    let h = box.h - b.padding_px * 2 in
    let ox = box.x + b.padding_px in
    let oy = box.y + b.padding_px in
    let budget = int_sub (main_side b.direction w h) (gaps b) in
    let cross_avail = cross_side b.direction w h in
    place_from b (cross_side b.direction ox oy) cross_avail (main_side b.direction ox oy) 0
      (mains_of b budget cross_avail) (map (cross_of b.direction) (measured b budget cross_avail))
