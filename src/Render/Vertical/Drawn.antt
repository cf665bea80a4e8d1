-- ===== src/Render/Vertical/Drawn.antt =====
-- `scaled_qr` of src/labelfab/render/vertical.py: which modules of a code are drawn.
use labelfab.Common.{
  ℕ, zero, suc, ◌+◌, ◌≡◌, ◌⊎◌, inl, inr, refl, subst, ap, ◌∙◌, Bool, true, false, List, [], ◌∷◌,
  ◌++◌, All, All-append, get_or, arith,
}
use labelfab.Render.Vertical.{Module, module_at, module_if, row_modules, matrix_modules}

-- Whether the module in a row and a column of the matrix is dark; there is none outside it.
abbrev pub is_dark : List (List Bool) → ℕ → ℕ → Bool
is_dark matrix r c = get_or (get_or matrix r []) c false

abbrev pub Has : Module → List Module → Type 0
Has m [] = ⊥
Has m (x ∷ xs) = (m ≡ x) ⊎ Has m xs

Has-front : (m : Module) (xs ys : List Module) → Has m xs → Has m (xs ++ ys)
Has-front m [] ys h = elim h [ ]
Has-front m (x ∷ xs) ys (inl e) = inl e
Has-front m (x ∷ xs) ys (inr h) = inr (Has-front m xs ys h)

Has-back : (m : Module) (xs ys : List Module) → Has m ys → Has m (xs ++ ys)
Has-back m [] ys h = h
Has-back m (x ∷ xs) ys h = inr (Has-back m xs ys h)

All-map :
    {P Q : Module → Type 0} (ms : List Module) → ((m : Module) → P m → Q m) → All P ms → All Q ms
All-map [] f h = tt
All-map (m ∷ ms) f (here, there) = (f m here, All-map ms f there)

module _ (width total quiet : ℕ) where
  -- The squares of a row from column `c` on are those of its dark modules.
  row-drawn :
      (r c : ℕ) (row : List Bool) (i : ℕ)
      → get_or row i false ≡ true
      → Has (module_at width total quiet r (c + i)) (row_modules width total quiet r c row)
  unfolding row_modules
  row-drawn r c [] i h = let bad : false ≡ true = h in cc
  row-drawn r c (true ∷ row) zero h = inl (ap (module_at width total quiet r) (omega arith))
  row-drawn r c (false ∷ row) zero h = let bad : false ≡ true = h in cc
  row-drawn r c (dark ∷ row) (suc i) h =
      Has-back (module_at width total quiet r (c + suc i))
        (module_if dark (module_at width total quiet r c))
        (row_modules width total quiet r (suc c) row)
        (subst
          (λ j. Has (module_at width total quiet r j) (row_modules width total quiet r (suc c) row))
          (omega arith) (row-drawn r (suc c) row i h))

  matrix-drawn :
      (r : ℕ) (rows : List (List Bool)) (i c : ℕ)
      → is_dark rows i c ≡ true
      → Has (module_at width total quiet (r + i) c) (matrix_modules width total quiet r rows)
  unfolding matrix_modules
  matrix-drawn r [] i c h = let bad : false ≡ true = h in cc
  matrix-drawn r (row ∷ rows) zero c h =
      Has-front (module_at width total quiet (r + 0) c) (row_modules width total quiet r 0 row)
        (matrix_modules width total quiet (suc r) rows)
        (subst (λ k. Has (module_at width total quiet k c) (row_modules width total quiet r 0 row))
          (omega arith)
          (subst
            (λ j. Has (module_at width total quiet r j) (row_modules width total quiet r 0 row))
            (omega arith) (row-drawn r 0 row c h)))
  matrix-drawn r (row ∷ rows) (suc i) c h =
      Has-back (module_at width total quiet (r + suc i) c) (row_modules width total quiet r 0 row)
        (matrix_modules width total quiet (suc r) rows)
        (subst
          (λ k.
            Has (module_at width total quiet k c) (matrix_modules width total quiet (suc r) rows))
          (omega arith) (matrix-drawn (suc r) rows i c h))

  -- A module of a row from column `c` on.
  abbrev OfRow : ℕ → ℕ → List Bool → Module → Type 0
  OfRow r c row m =
      (i : ℕ) × (get_or row i false ≡ true) × (m ≡ module_at width total quiet r (c + i))

  next_column :
      (r c : ℕ) (dark : Bool) (row : List Bool) (m : Module)
      → OfRow r (suc c) row m
      → OfRow r c (dark ∷ row) m
  next_column r c dark row m (i, lit, stands) =
      let same : suc c + i ≡ c + suc i = omega arith in
      (suc i, lit, stands ∙ ap (λ j. module_at width total quiet r j) same)

  row-OfRow :
      (r c : ℕ) (row : List Bool) → All (OfRow r c row) (row_modules width total quiet r c row)
  unfolding row_modules
  row-OfRow r c [] = tt
  row-OfRow r c (true ∷ row) =
      let same : c ≡ c + 0 = omega arith in
      (
        (0, refl, ap (λ j. module_at width total quiet r j) same),
        All-map (row_modules width total quiet r (suc c) row) (next_column r c true row)
            (row-OfRow r (suc c) row),
      )
  row-OfRow r c (false ∷ row) =
      All-map (row_modules width total quiet r (suc c) row) (next_column r c false row)
        (row-OfRow r (suc c) row)

  -- A dark module of the rows from row `r` on.
  abbrev OfRows : ℕ → List (List Bool) → Module → Type 0
  OfRows r rows m =
      (i : ℕ) × (c : ℕ) × (is_dark rows i c ≡ true) × (m ≡ module_at width total quiet (r + i) c)

  first_row :
      (r : ℕ) (row : List Bool) (rows : List (List Bool)) (m : Module)
      → OfRow r 0 row m
      → OfRows r (row ∷ rows) m
  first_row r row rows m (c, lit, stands) =
      let column : 0 + c ≡ c = omega arith in
      let here : r ≡ r + 0 = omega arith in
      (
        0,
        c,
        lit,
        stands
            ∙ (ap (λ j. module_at width total quiet r j) column
                ∙ ap (λ k. module_at width total quiet k c) here),
      )

  next_row :
      (r : ℕ) (row : List Bool) (rows : List (List Bool)) (m : Module)
      → OfRows (suc r) rows m
      → OfRows r (row ∷ rows) m
  next_row r row rows m (i, c, lit, stands) =
      let same : suc r + i ≡ r + suc i = omega arith in
      (suc i, c, lit, stands ∙ ap (λ k. module_at width total quiet k c) same)

  matrix-OfRows :
      (r : ℕ) (rows : List (List Bool))
      → All (OfRows r rows) (matrix_modules width total quiet r rows)
  unfolding matrix_modules
  matrix-OfRows r [] = tt
  matrix-OfRows r (row ∷ rows) =
      All-append (OfRows r (row ∷ rows)) (row_modules width total quiet r 0 row)
        (matrix_modules width total quiet (suc r) rows)
        (All-map (row_modules width total quiet r 0 row) (first_row r row rows) (row-OfRow r 0 row))
        (All-map (matrix_modules width total quiet (suc r) rows) (next_row r row rows)
          (matrix-OfRows (suc r) rows))

  -- The square of a dark module of the matrix.
  abbrev pub IsOfCode : List (List Bool) → Module → Type 0
  IsOfCode matrix m =
      (r : ℕ) × (c : ℕ) × (is_dark matrix r c ≡ true) × (m ≡ module_at width total quiet r c)

  pub matrix-IsOfCode :
      (matrix : List (List Bool))
      → All (IsOfCode matrix) (matrix_modules width total quiet 0 matrix)
  matrix-IsOfCode matrix =
      All-map (matrix_modules width total quiet 0 matrix)
        (λ m (r, c, lit, stands).
          let same : 0 + r ≡ r = omega arith in
          (r, c, lit, stands ∙ ap (λ k. module_at width total quiet k c) same))
        (matrix-OfRows 0 matrix)

  pub matrix-Has :
      (matrix : List (List Bool)) (r c : ℕ)
      → is_dark matrix r c ≡ true
      → Has (module_at width total quiet r c) (matrix_modules width total quiet 0 matrix)
  matrix-Has matrix r c lit =
      subst (λ k. Has (module_at width total quiet k c) (matrix_modules width total quiet 0 matrix))
        (omega arith) (matrix-drawn 0 matrix r c lit)
