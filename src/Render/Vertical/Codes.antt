-- ===== src/Render/Vertical/Codes.antt =====
-- `scaled_qr` of src/labelfab/render/vertical.py: where the modules of a code stand.
use native.Mathlib.Nat.{
  le-div_iff_mul-le, div-mul-le_self, add-mul-mod_self_right, mul-mod_right, div-add-mod,
  add-mul-div_right, mul-div_cancel_left, mul-le-mul_right,
}
use labelfab.Common.{
  ℕ, suc, ◌+◌, ◌-◌, ◌*◌, ◌/◌, ◌%◌, ◌≤◌, ◌<◌, ◌≡◌, inl, inr, subst, ap, sym, ◌∙◌, Bool, true, false,
  List, [], ◌∷◌, length, All, All-append, ltb, if◌then◌else◌, Bool-cases, ok, err, arith,
}
use labelfab.Render.Vertical.Drawn.{is_dark, Has, IsOfCode, matrix-IsOfCode, matrix-Has}
use labelfab.Render.Vertical.{
  qr_too_dense, min_qr_module_px, round_div, edge, Module, module_at, row_modules, matrix_modules,
  scaled_qr,
}

-- The rounding of a quotient `q` with remainder `r`.
abbrev rounded : ℕ → ℕ → ℕ → ℕ
rounded d q r = if ltb (2 * r) d then q else if ltb d (2 * r) then q + 1 else q + q % 2

rounded-least : (d q r : ℕ) → (q ≤ rounded d q r) × (rounded d q r ≤ q + 1)
rounded-least d q r = ground arith

rounded_mono : (d q r s : ℕ) → r ≤ s → rounded d q r ≤ rounded d q s
rounded_mono d q r s h = ground arith

rounded-two : (d q r : ℕ) → rounded d (q + 2) r ≡ rounded d q r + 2
rounded-two d q r = ground arith

-- Rounding keeps the order.
round_div_mono : (d n m : ℕ) → 0 < d → n ≤ m → round_div n d ≤ round_div m d
unfolding round_div
round_div_mono d n m pos h =
    let parts : n / d ≤ m / d = (le-div_iff_mul-le pos).1 (omega (arith, div-mul-le_self n d, h)) in
    elim (Bool-cases (ltb (n / d) (m / d))) [
      | inl less ↦
          let top = (rounded-least d (n / d) (n % d)).1 in
          let low = (rounded-least d (m / d) (m % d)).0 in
          let gap : n / d < m / d = ground arith in omega (arith, top, low, gap)
      | inr same ↦
          let e : m / d ≡ n / d = ground arith in
          let f : d * (m / d) ≡ d * (n / d) = ap (λ q. d * q) e in
          let rests : n % d ≤ m % d = omega (arith, f, h, div-add-mod n d, div-add-mod m d) in
          subst (λ q. rounded d (n / d) (n % d) ≤ rounded d q (m % d)) (sym e)
            (rounded_mono d (n / d) (n % d) (m % d) rests)
    ]

-- Two more than a quotient is rounded to two more.
round_div-two : (d n : ℕ) → 0 < d → round_div (n + 2 * d) d ≡ round_div n d + 2
unfolding round_div
round_div-two d n pos =
    ap (λ q. rounded d q ((n + 2 * d) % d)) (add-mul-div_right n 2 pos)
    ∙ ap (λ r. rounded d (n / d + 2) r) (add-mul-mod_self_right n 2 d)
    ∙ rounded-two d (n / d) (n % d)

edge-last : (width total : ℕ) → 0 < total → edge width total total ≡ width
unfolding round_div
edge-last width total pos =
    ap (λ q. rounded total q (total * width % total)) (mul-div_cancel_left width pos)
    ∙ ap (λ r. rounded total width r) (mul-mod_right total width)
    ∙ ground arith

-- Two pixels wide and high at least, and inside the quiet zone of the image.
abbrev pub IsPlaced : ℕ → ℕ → ℕ → Module → Type 0
IsPlaced width total quiet m =
    (edge width total quiet ≤ m.x0)
    × (m.x0 + 2 ≤ m.x1)
    × (m.x1 ≤ edge width total (total - quiet))
    × (edge width total quiet ≤ m.y0)
    × (m.y0 + 2 ≤ m.y1)
    × (m.y1 ≤ edge width total (total - quiet))

module _ (width total quiet : ℕ) (some_modules : 0 < total) (dense : 2 * total ≤ width) where
  edge_mono : (i j : ℕ) → i ≤ j → edge width total i ≤ edge width total j
  edge_mono i j h =
      round_div_mono total (i * width) (j * width) some_modules (mul-le-mul_right width h)

  edge-next : (i : ℕ) → edge width total i + 2 ≤ edge width total (i + 1)
  edge-next i =
      let more : i * width + 2 * total ≤ (i + 1) * width = omega (arith, dense) in
      omega (
        arith,
        round_div-two total (i * width) some_modules,
        round_div_mono total (i * width + 2 * total) ((i + 1) * width) some_modules more,
      )

  module_at-IsPlaced :
      (r c : ℕ)
      → r + quiet + 1 ≤ total - quiet
      → c + quiet + 1 ≤ total - quiet
      → IsPlaced width total quiet (module_at width total quiet r c)
  module_at-IsPlaced r c down across = (
    edge_mono quiet (c + quiet) (omega arith),
    edge-next (c + quiet),
    edge_mono (c + quiet + 1) (total - quiet) across,
    edge_mono quiet (r + quiet) (omega arith),
    edge-next (r + quiet),
    edge_mono (r + quiet + 1) (total - quiet) down,
  )

  row-IsPlaced :
      (r c : ℕ) (row : List Bool)
      → r + quiet + 1 ≤ total - quiet
      → c + length row + quiet ≤ total - quiet
      → All (IsPlaced width total quiet) (row_modules width total quiet r c row)
  unfolding row_modules
  row-IsPlaced r c [] down across = tt
  row-IsPlaced r c (true ∷ row) down across = (
    module_at-IsPlaced r c down (omega arith),
    row-IsPlaced r (suc c) row down (omega (arith, across)),
  )
  row-IsPlaced r c (false ∷ row) down across =
      row-IsPlaced r (suc c) row down (omega (arith, across))

  matrix-IsPlaced :
      (n r : ℕ) (rows : List (List Bool))
      → n + quiet ≤ total - quiet
      → r + length rows ≤ n
      → All (λ (row : List Bool). length row ≤ n) rows
      → All (IsPlaced width total quiet) (matrix_modules width total quiet r rows)
  unfolding matrix_modules
  matrix-IsPlaced n r [] fits down wide = tt
  matrix-IsPlaced n r (row ∷ rows) fits down (here, there) =
      All-append (IsPlaced width total quiet) (row_modules width total quiet r 0 row) _
        (row-IsPlaced r 0 row (omega (arith, fits)) (omega (arith, fits, here)))
        (matrix-IsPlaced n (suc r) rows fits (omega (arith, down)) there)

scaled_qr-made :
    (matrix : List (List Bool)) (width quiet : ℕ) (modules : List Module)
    → scaled_qr matrix width quiet ≡ ok modules
    → let total = length matrix + 2 * quiet in
      (2 * total ≤ width) × (modules ≡ matrix_modules width total quiet 0 matrix)
unfolding scaled_qr
scaled_qr-made matrix width quiet modules e =
    let total = length matrix + 2 * quiet in
    elim (Bool-cases (ltb width (min_qr_module_px * total))) [
      | inl dense ↦ let bad : err qr_too_dense ≡ ok modules = rw dense at e in cc
      | inr wide ↦
          let made : ok (matrix_modules width total quiet 0 matrix) ≡ ok modules = rw wide at e in
          (ground arith, cc)
    ]

-- Of a code whose rows are no longer than it has rows: each dark module of the matrix is drawn, in the
-- square of its row and column, and nothing else is; each square is two pixels wide and high at least,
-- and none is in the quiet zone around the code; the zones and the code fill the width.
pub scaled_qr-IsPlaced :
    (matrix : List (List Bool)) (width quiet : ℕ) (modules : List Module)
    → 0 < length matrix
    → All (λ (row : List Bool). length row ≤ length matrix) matrix
    → scaled_qr matrix width quiet ≡ ok modules
    → let total = length matrix + 2 * quiet in
      All (IsPlaced width total quiet) modules
      × (edge width total total ≡ width)
      × All (IsOfCode width total quiet matrix) modules
      × ((r c : ℕ) → is_dark matrix r c ≡ true → Has (module_at width total quiet r c) modules)
scaled_qr-IsPlaced matrix width quiet modules some_rows square e =
    let total = length matrix + 2 * quiet in
    let (wide, made) = scaled_qr-made matrix width quiet modules e in
    let some_modules : 0 < total = omega (arith, some_rows) in
    (
      subst (λ ms. All (IsPlaced width total quiet) ms) (sym made)
          (matrix-IsPlaced width total quiet some_modules wide (length matrix) 0 matrix
            (omega arith) (omega arith) square),
      edge-last width total some_modules,
      subst (λ ms. All (IsOfCode width total quiet matrix) ms) (sym made)
          (matrix-IsOfCode width total quiet matrix),
      λ r c lit.
          subst (λ ms. Has (module_at width total quiet r c) ms) (sym made)
            (matrix-Has width total quiet matrix r c lit),
    )
