-- ===== src/Cli/Preview.antt =====
-- src/labelfab/cli.py: `_ansi`, a picture as half blocks on a terminal. Grey levels are a function of
-- column and row; resizing is Pillow's, and a parameter.
pub mod Screens
use labelfab.Common.{
  ℕ, zero, suc, ◌+◌, ◌*◌, ◌/◌, max, Bool, true, false, ◌&&◌, List, [], ◌∷◌, ◌++◌, Option, none,
  some, ltb, ◌==◌, if◌then◌else◌,
}
use labelfab.Render.{Size}

-- What is printed, in order: the escape codes of two colours and of the reset, `▀`, and the end of
-- a line.
pub data Piece : Type 0 where
  colours : ℕ → ℕ → Piece
  half_block reset newline : Piece

abbrev pub Grey : Type 0
Grey = ℕ → ℕ → ℕ

abbrev pub foreground : Bool → ℕ
foreground top = if top then 30 else 97

abbrev pub background : Bool → ℕ
background bottom = if bottom then 40 else 107

abbrev pub is_dark : ℕ → Bool
is_dark level = ltb level 128

-- Whether the row below `y` is there, and dark in a column.
abbrev pub is_dark_below : Grey → ℕ → ℕ → ℕ → Bool
is_dark_below px height y x = ltb (y + 1) height && is_dark (px x (y + 1))

abbrev pub is_current : Option (ℕ × ℕ) → ℕ → ℕ → Bool
is_current none f b = false
is_current (some (g, c)) f b = g == f && c == b

-- The columns of one line from column `x`: `top` and `bottom` say which are dark.
unfoldable pub cells : (ℕ → Bool) → (ℕ → Bool) → ℕ → ℕ → Option (ℕ × ℕ) → List Piece
cells top bottom x zero current = []
cells top bottom x (suc n) current =
    let f = foreground (top x) in
    let b = background (bottom x) in
    let rest = half_block ∷ cells top bottom (suc x) n (some (f, b)) in
    if is_current current f b then rest else colours f b ∷ rest

abbrev pub line : Grey → Size → ℕ → List Piece
line px size y =
    cells (λ x. is_dark (px x y)) (is_dark_below px size.height y) 0 size.width none ++ reset ∷ []

-- The lines from number `k`: one for every two rows.
abbrev pub lines_from : Grey → Size → ℕ → ℕ → List (List Piece)
lines_from px size k zero = []
lines_from px size k (suc n) = line px size (2 * k) ∷ lines_from px size (suc k) n

-- `"\n".join(lines)`
abbrev pub join : List (List Piece) → List Piece
join [] = []
join (l ∷ []) = l
join (l ∷ m ∷ ls) = l ++ newline ∷ join (m ∷ ls)

abbrev pub shrunk : ℕ → Size → Size
shrunk scale size =
    if ltb 1 scale
    then record { width = max 1 (size.width / scale); height = max 1 (size.height / scale) }
    else size

abbrev pub scaled : (Size → Grey) → Grey → ℕ → Size → Grey
scaled resize px scale size = if ltb 1 scale then resize (shrunk scale size) else px

-- `_ansi`; `resize` is the picture in another size.
unfoldable pub ansi : (Size → Grey) → Grey → Size → ℕ → List Piece
unfolding cells
ansi resize px size scale =
    let small = shrunk scale size in
    join (lines_from (scaled resize px scale size) small 0 ((small.height + 1) / 2))
