-- ===== src/Cli/Preview/Screens.antt =====
-- `_ansi` of src/labelfab/cli.py: what a terminal shows of it.
use labelfab.Common.{
  ℕ, zero, suc, ◌+◌, ◌*◌, ◌/◌, ◌<◌, ◌≡◌, refl, sym, ◌∙◌, ap, arith, Bool, true, List, [], ◌∷◌, ◌++◌,
  append_assoc, append-nil, Option, none, some, if◌then◌else◌, Bool-cases, inl, inr,
}
use labelfab.Render.{Size}
use labelfab.Cli.Preview.{
  Piece, colours, half_block, reset, newline, Grey, foreground, background, is_dark, is_dark_below,
  is_current, cells, line, lines_from, join, shrunk, scaled, ansi,
}

-- A block on the screen: the colours of its halves, or none where the terminal's own are used.
abbrev Cell : Type 0
Cell = Option (ℕ × ℕ)

-- A terminal that reads the pieces with some colours set: the rest of the line, and the lines that
-- follow.
abbrev shown : Cell → List Piece → List Cell × List (List Cell)
shown c [] = ([], [])
shown c (colours f b ∷ ps) = shown (some (f, b)) ps
shown c (half_block ∷ ps) = (c ∷ (shown c ps).0, (shown c ps).1)
shown c (reset ∷ ps) = shown none ps
shown c (newline ∷ ps) = ([], (shown c ps).0 ∷ (shown c ps).1)

unfoldable pub screen : List Piece → List (List Cell)
screen ps = (shown none ps).0 ∷ (shown none ps).1

-- `f k`, `f (k + 1)` and so on, `n` of them.
abbrev pub upto_from {ℓ} : {A : Type ℓ} → ℕ → ℕ → (ℕ → A) → List A
upto_from k zero f = []
upto_from k (suc n) f = f k ∷ upto_from (suc k) n f

abbrev pub cell : Bool → Bool → Cell
cell top bottom = some (if top then 30 else 97, if bottom then 40 else 107)

is_current-eq : (c : Cell) (f b : ℕ) → is_current c f b ≡ true → c ≡ some (f, b)
is_current-eq none f b h = cc
is_current-eq (some (g, d)) f b h =
    let left : g ≡ f = ground arith in let right : d ≡ b = ground arith in cc

module _ (top bottom : ℕ → Bool) where
  abbrev row_of : ℕ → ℕ → List Cell
  row_of x n = upto_from x n (λ i. cell (top i) (bottom i))

  cells-shown :
      (x n : ℕ) (c : Cell) (ps : List Piece)
      → shown c (cells top bottom x n c ++ reset ∷ ps)
        ≡ (row_of x n ++ (shown none ps).0, (shown none ps).1)
  unfolding cells
  cells-shown x zero c ps = refl
  cells-shown x (suc n) c ps =
      let f = foreground (top x) in
      let b = background (bottom x) in
      let next : shown (some (f, b))
            (half_block ∷ cells top bottom (suc x) n (some (f, b)) ++ reset ∷ ps)
          ≡ (row_of x (suc n) ++ (shown none ps).0, (shown none ps).1) =
        ap (λ s. (some (f, b) ∷ s.0, s.1)) (cells-shown (suc x) n (some (f, b)) ps) in
      elim (Bool-cases (is_current c f b)) [
        | inl same ↦ rw same (rw (is_current-eq c f b same) next)
        | inr other ↦ rw other next
      ]

-- Two rows of the picture as a line of blocks, from number `k` of the lines.
abbrev pub blocks : Grey → Size → ℕ → List Cell
blocks px size k =
    upto_from 0 size.width
      (λ x. cell (is_dark (px x (2 * k))) (is_dark_below px size.height (2 * k) x))

module _ (px : Grey) (size : Size) where
  line-shown :
      (k : ℕ) (ps : List Piece)
      → shown none (line px size (2 * k) ++ ps)
        ≡ (blocks px size k ++ (shown none ps).0, (shown none ps).1)
  line-shown k ps =
      let top : ℕ → Bool = λ x. is_dark (px x (2 * k)) in
      let bottom = is_dark_below px size.height (2 * k) in
      ap (shown none) (append_assoc (cells top bottom 0 size.width none) (reset ∷ []) ps)
      ∙ cells-shown top bottom 0 size.width none ps

  lines-shown :
      (n k : ℕ)
      → screen (join (lines_from px size k (suc n))) ≡ upto_from k (suc n) (blocks px size)
  unfolding screen
  lines-shown zero k =
      let l = line px size (2 * k) in
      ap (λ s. s.0 ∷ s.1) (ap (shown none) (sym (append-nil l)) ∙ line-shown k [])
      ∙ ap (λ s. s ∷ []) (append-nil (blocks px size k))
  lines-shown (suc n) k =
      ap (λ s. s.0 ∷ s.1) (line-shown k (newline ∷ join (lines_from px size (suc k) (suc n))))
      ∙ (ap (λ s. s ∷ screen (join (lines_from px size (suc k) (suc n))))
            (append-nil (blocks px size k))
          ∙ ap (λ s. blocks px size k ∷ s) (lines-shown n (suc k)))

-- How often a line of blocks changes its colours, after a block.
abbrev changes : Cell → List Cell → ℕ
changes c [] = 0
changes c (none ∷ ds) = changes none ds
changes c (some (f, b) ∷ ds) =
    let rest = changes (some (f, b)) ds in if is_current c f b then rest else suc rest

abbrev pub all_changes : List (List Cell) → ℕ
all_changes [] = 0
all_changes (l ∷ ls) = changes none l + all_changes ls

-- How many codes for colours are printed.
abbrev pub codes : List Piece → ℕ
codes [] = 0
codes (colours f b ∷ ps) = suc (codes ps)
codes (half_block ∷ ps) = codes ps
codes (reset ∷ ps) = codes ps
codes (newline ∷ ps) = codes ps

cells-codes :
    (top bottom : ℕ → Bool) (x n : ℕ) (c : Cell) (ps : List Piece)
    → codes (cells top bottom x n c ++ ps) ≡ changes c (row_of top bottom x n) + codes ps
unfolding cells
cells-codes top bottom x zero c ps = omega arith
cells-codes top bottom x (suc n) c ps =
    let f = foreground (top x) in
    let b = background (bottom x) in
    let next = cells-codes top bottom (suc x) n (some (f, b)) ps in
    elim (Bool-cases (is_current c f b)) [
      | inl same ↦ rw same next
      | inr other ↦ rw other (omega (arith, next))
    ]

module _ (px : Grey) (size : Size) where
  line-codes :
      (k : ℕ) (ps : List Piece)
      → codes (line px size (2 * k) ++ ps) ≡ changes none (blocks px size k) + codes ps
  line-codes k ps =
      let top : ℕ → Bool = λ x. is_dark (px x (2 * k)) in
      let bottom = is_dark_below px size.height (2 * k) in
      ap codes (append_assoc (cells top bottom 0 size.width none) (reset ∷ []) ps)
      ∙ cells-codes top bottom 0 size.width none (reset ∷ ps)

  lines-codes :
      (n k : ℕ)
      → codes (join (lines_from px size k (suc n)))
        ≡ all_changes (upto_from k (suc n) (blocks px size))
  lines-codes zero k = ap codes (sym (append-nil (line px size (2 * k)))) ∙ line-codes k []
  lines-codes (suc n) k =
      line-codes k (newline ∷ join (lines_from px size (suc k) (suc n)))
      ∙ ap (λ m. changes none (blocks px size k) + m) (lines-codes n (suc k))

  preview :
      (n : ℕ)
      → 0 < n
      → let ps = join (lines_from px size 0 n) in
        (screen ps ≡ upto_from 0 n (blocks px size)) × (codes ps ≡ all_changes (screen ps))
  preview zero h = absurd (omega arith)
  preview (suc n) h =
      let seen = lines-shown px size n 0 in (seen, lines-codes n 0 ∙ ap all_changes (sym seen))

-- For a picture of one row or more, scaled down as asked: a terminal shows a line of blocks for
-- every two rows, as wide as the picture; the upper half of each block is dark where the pixel is, the
-- lower half where the pixel below is there and dark. As many codes for colours are printed as there
-- are changes of colours along the lines.
pub ansi-screen :
    (resize : Size → Grey) (px : Grey) (size : Size) (scale : ℕ)
    → 0 < size.height
    → (screen (ansi resize px size scale)
        ≡ upto_from 0
            (((shrunk scale size).height + 1) / 2)
            (blocks (scaled resize px scale size) (shrunk scale size)))
      × (codes (ansi resize px size scale) ≡ all_changes (screen (ansi resize px size scale)))
unfolding ansi
ansi-screen resize px size scale h =
    preview (scaled resize px scale size) (shrunk scale size) (((shrunk scale size).height + 1) / 2)
      (ground arith)
