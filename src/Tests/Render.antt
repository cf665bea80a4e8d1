-- ===== src/Tests/Render.antt =====
-- The theorems on src/labelfab/render at concrete inputs.
mod Pixels
mod Jobs
use labelfab.Common.{
  Bool, some, leb, ◌/◌, ◌-◌, All, ℕ, ◌+◌, ◌*◌, ◌≤◌, true, false, [], ◌∷◌, List, none, refl, length,
  ◌≡◌, pos, to_nat, min, arith,
}
use mathlib.Core.Option.{bind}
use labelfab.Contract.{mm_to_px, px_units}
use labelfab.Agent.Coalescer
use labelfab.Agent.Coalescer.{Coalescer, PendingLabel}
use labelfab.Render.{Size, Strip, concat_strip}
use labelfab.Render.Lengths.{Placed, concat_strip-Placed, concat_strip-length_mm}
use labelfab.Render.Layout.{
  Rect, Child, BoxLayout, row, center, sum, grow, add_at, widest_from, elastic_of, shrink_all,
  distribute, draw, measure,
}
use labelfab.Render.Layout.Shares.{NoLarger}
use labelfab.Render.Layout.Budget.{Shared, distribute-surplus, distribute-deficit}
use labelfab.Render.Layout.Places.{InLine, draw-InLine}
use labelfab.Render.Layout.Measures.{Modest, measure-fits}
use labelfab.Render.Text.{
  Text, wrap, split_at, words_from, words_of, split_word, wrap_word, wrap_words, wrap_paragraphs,
}
use labelfab.Render.Text.Wraps.{Fit}
use labelfab.Render.Text.Letters.{letters, letters_all}
use labelfab.Render.Text.Lines.{wrap-lines}
use labelfab.Render.Text.Fonts.{Fonts, TextElement}
use labelfab.Render.Text.Fonts
use labelfab.Render.Text.Fonts.Places.{draw-Drawn, Drawn}
use labelfab.Render.Vertical.{
  scaled_qr, matrix_modules, row_modules, round_div, edge, Module, Faces, fit_line, smart_cut,
  largest, whole_words, rstrip, shorten, join_words,
}
use labelfab.Render.Vertical.{module_at}
use labelfab.Render.Vertical.Drawn.{is_dark, Has, IsOfCode}
use labelfab.Render.Vertical.Codes.{IsPlaced, scaled_qr-IsPlaced}
use labelfab.Render.Vertical.Lines.{IsFitted, fit_line-IsFitted}
use labelfab.Render.Vertical.Stock
use labelfab.Render.Vertical.Stock.{StockItem, lines, stack, stack_height, first_line, has_ink}
use labelfab.Render.Vertical.Stock.Stacks.{Stacked, draw-Stacked}

abbrev sizes : List Size
sizes = record { width = 40; height = 96 } ∷ record { width = 25; height = 96 } ∷ []

-- Separators of 2 mm are 16 columns.
abbrev two_labels : Strip
two_labels = record { width = 113; height = 96; labels = 16 ∷ 72 ∷ []; ticks = 8 ∷ 64 ∷ 105 ∷ [] }

concat_strip-Placed_example : Placed 0 sizes two_labels.labels two_labels.width
unfolding concat_strip mm_to_px
concat_strip-Placed_example = concat_strip-Placed sizes 203000 true two_labels refl

abbrev pending_of : ℕ → PendingLabel
pending_of width = record {
  job_id = "j1";
  label_index = 0;
  image = record { width = width; height = 96; pixels = [] };
}

abbrev strip_of_two : Coalescer
strip_of_two = record {
  max_wait = 5000;
  max_length_mm = 101500000;
  max_labels = 10;
  separator_mm = 203000;
  pending = pending_of 40 ∷ pending_of 25 ∷ [];
  width_mm = none;
  last_add_at = none;
}

concat_strip-length_mm_example :
    let slack = 6350 * (length strip_of_two.pending + 1) in
    (113 * px_units ≤ Coalescer.length_mm strip_of_two + slack)
    × (Coalescer.length_mm strip_of_two ≤ 113 * px_units + slack)
unfolding concat_strip mm_to_px
concat_strip-length_mm_example = concat_strip-length_mm strip_of_two two_labels refl

distribute-surplus_example :
    let sizes = distribute (10 ∷ 20 ∷ []) (1 ∷ 2 ∷ []) (pos 61) in
    (sum sizes ≡ 61) × NoLarger (10 ∷ 20 ∷ []) sizes
unfolding sum
distribute-surplus_example =
    distribute-surplus (10 ∷ 20 ∷ []) (1 ∷ 2 ∷ []) 61 refl (omega arith) (omega arith)

distribute-surplus_sizes : distribute (10 ∷ 20 ∷ []) (1 ∷ 2 ∷ []) (pos 61) ≡ 20 ∷ 41 ∷ []
unfolding distribute sum grow add_at widest_from
distribute-surplus_sizes = refl

distribute-deficit_example :
    Shared (10 ∷ 10 ∷ 10 ∷ []) (pos 20) (distribute (10 ∷ 10 ∷ 10 ∷ []) (0 ∷ 0 ∷ 0 ∷ []) (pos 20))
unfolding sum
distribute-deficit_example =
    distribute-deficit (10 ∷ 10 ∷ 10 ∷ []) (0 ∷ 0 ∷ 0 ∷ []) (pos 20) (omega arith) (omega arith)

-- A pixel over the budget: the shares are rounded down, one for each child.
distribute-deficit_sizes : distribute (10 ∷ 10 ∷ 10 ∷ []) (0 ∷ 0 ∷ 0 ∷ []) (pos 20) ≡ 7 ∷ 7 ∷ 7 ∷ []
unfolding distribute sum shrink_all elastic_of
distribute-deficit_sizes = refl

-- A child that wants 30 by 20 pixels, or what there is.
abbrev child : ℕ → Child
child f = record { measure = λ w h. (min 30 (to_nat w), min 20 (to_nat h)); flex = f }

child-Modest : (f : ℕ) → Modest (child f)
child-Modest f w h = (omega arith, omega arith)

abbrev two_boxes : BoxLayout
two_boxes = record {
  children = child 0 ∷ child 1 ∷ [];
  direction = row;
  gap_px = 5;
  padding_px = 4;
  align = center;
  flex = 1;
}

abbrev canvas : Rect
canvas = record { x = 0; y = 0; w = 160; h = 96 }

draw-InLine_example : InLine row 5 4 156 4 92 (draw two_boxes canvas)
unfolding sum
draw-InLine_example = draw-InLine two_boxes canvas

measure-fits_example :
    ((measure two_boxes (pos 160) (pos 96)).0 ≤ 160)
    × ((measure two_boxes (pos 160) (pos 96)).1 ≤ 96)
measure-fits_example =
    measure-fits two_boxes 160 96 (child-Modest 0, (child-Modest 1, tt)) (omega arith) (omega arith)

abbrev is_space : ℕ → Bool
is_space c = leb c 32

-- Characters of four pixels, a width of 20.
abbrev narrow : Text → Bool
narrow t = leb (length t * 4) 20

-- "INV PA39.1" on a narrow label, whose second word has to be broken.
abbrev name : Text
name = 73 ∷ 78 ∷ 86 ∷ 32 ∷ 80 ∷ 65 ∷ 51 ∷ 57 ∷ 46 ∷ 49 ∷ []

wrap-lines_example :
    (lines : List Text) × (wrap is_space narrow true name ≡ some lines)
    × All (Fit narrow) lines
    × (letters_all is_space lines ≡ letters is_space name)
wrap-lines_example = wrap-lines is_space narrow name refl refl

wrap_two :
    wrap is_space narrow true name
    ≡ some ((73 ∷ 78 ∷ 86 ∷ []) ∷ (80 ∷ 65 ∷ 51 ∷ 57 ∷ 46 ∷ []) ∷ (49 ∷ []) ∷ [])
unfolding wrap split_at words_from words_of split_word wrap_word wrap_words wrap_paragraphs bind
wrap_two = refl

-- A font of as many pixels as its size is high and half as wide.
abbrev fonts : Fonts ℕ ℕ
fonts = record {
  load = λ size. size;
  fits = λ font width t. leb (font * length t) (width * 2);
  line_height = λ font. font;
  middle = λ lo hi. (lo + hi) / 2;
  near = λ lo hi. leb (hi - lo) 1;
  is_space = is_space;
}

abbrev title : TextElement ℕ
title = record { value = name; max_lines = 2; min_pt = 5; max_pt = 28 }

draw-Drawn_example : Drawn fonts title canvas (Fonts.draw fonts title canvas)
draw-Drawn_example = draw-Drawn fonts title canvas refl refl (omega arith)

-- A code of three modules a side with a quiet zone of one.
abbrev matrix : List (List Bool)
matrix = (true ∷ false ∷ true ∷ []) ∷ (false ∷ true ∷ false ∷ []) ∷ (true ∷ false ∷ true ∷ []) ∷ []

abbrev modules : List Module
modules = matrix_modules 12 5 1 0 matrix

scaled_qr-IsPlaced_example :
    All (IsPlaced 12 5 1) modules
    × (edge 12 5 5 ≡ 12)
    × All (IsOfCode 12 5 1 matrix) modules
    × ((r c : ℕ) → is_dark matrix r c ≡ true → Has (module_at 12 5 1 r c) modules)
unfolding scaled_qr matrix_modules row_modules
scaled_qr-IsPlaced_example =
    scaled_qr-IsPlaced matrix 12 1 modules (omega arith)
      (omega arith, (omega arith, (omega arith, tt))) refl

-- Modules of two and three pixels.
edges : (edge 12 5 1 ≡ 2) × (edge 12 5 2 ≡ 5) × (edge 12 5 3 ≡ 7) × (edge 12 5 4 ≡ 10)
unfolding round_div
edges = (refl, refl, refl, refl)

abbrev faces : Faces
faces = record {
  fits = λ bold condensed size width t. leb (size * length t) (width * 2);
  ink_height = λ bold condensed size. size;
  is_space = is_space;
  is_dangling = is_space;
}

abbrev bolt : StockItem
bolt = record { qr_payload = name; inv = name; ipn = []; description = name; quiet_zone = 1 }

abbrev upright : Rect
upright = record { x = 0; y = 0; w = 12; h = 42 }

draw-Stacked_example :
    Stacked (0 + 12) (0 + 42) (stack faces is_space 12 (lines faces is_space bolt 12))
unfolding Stock.measure stack_height lines Stock.draw scaled_qr fit_line smart_cut round_div largest
    whole_words rstrip shorten join_words words_from first_line has_ink
draw-Stacked_example =
    draw-Stacked faces is_space matrix bolt upright 100 modules
      (stack faces is_space 12 (lines faces is_space bolt 12)) refl (omega arith) refl
