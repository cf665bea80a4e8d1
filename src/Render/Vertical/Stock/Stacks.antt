-- ===== src/Render/Vertical/Stock/Stacks.antt =====
-- `VerticalStockItem` of src/labelfab/render/vertical.py: what is drawn against what was measured.
use labelfab.Common.{ℕ, ◌+◌, ◌≤◌, ◌≡◌, subst, Bool, List, [], ◌∷◌, ok, >>=-eq-ok, arith}
use labelfab.Render.Layout.{Rect}
use labelfab.Render.Vertical.{line_gap_px, Module, scaled_qr, Faces, Line}
use labelfab.Render.Vertical.Stock.{StockItem, lines, height_of, stack_height, measure, stack, draw}

-- Ink below the row `from`, each a gap under the one before, none below the row `to`.
abbrev pub Stacked : ℕ → ℕ → List (ℕ × ℕ) → Type 0
Stacked from to [] = from ≤ to
Stacked from to ((y, h) ∷ rows) = (from + line_gap_px ≤ y) × Stacked (y + h) to rows

stack-Stacked :
    (faces : Faces) (is_break : ℕ → Bool) (y to : ℕ) (ls : List Line)
    → y + stack_height faces is_break ls ≤ to
    → Stacked y to (stack faces is_break y ls)
unfolding stack stack_height
stack-Stacked faces is_break y to [] h = omega (arith, h)
stack-Stacked faces is_break y to (l ∷ ls) h = (
  omega arith,
  stack-Stacked faces is_break (y + line_gap_px + height_of faces is_break l) to ls
      (omega (arith, h)),
)

-- In a box as high as was measured, and not cut by the height available then, the lines stand below
-- the code, a gap apart, and inside the box.
pub draw-Stacked :
    (faces : Faces) (is_break : ℕ → Bool) (matrix : List (List Bool)) (item : StockItem)
    (box : Rect) (avail_h : ℕ) (modules : List Module) (rows : List (ℕ × ℕ))
    → box.h ≡ (measure faces is_break item box.w avail_h).1
    → box.w + stack_height faces is_break (lines faces is_break item box.w) ≤ avail_h
    → draw faces is_break matrix item box ≡ ok (modules, rows)
    → Stacked (box.y + box.w) (box.y + box.h) rows
unfolding draw measure
draw-Stacked faces is_break matrix item box avail_h modules rows high enough e =
    let (made, _, f) = >>=-eq-ok (scaled_qr matrix box.w item.quiet_zone) _ e in
    let g : stack faces is_break (box.y + box.w) (lines faces is_break item box.w) ≡ rows = cc in
    subst (Stacked (box.y + box.w) (box.y + box.h)) g (
      stack-Stacked faces is_break (box.y + box.w) (box.y + box.h) (lines faces is_break item box.w)
        (omega (arith, high, enough)))
