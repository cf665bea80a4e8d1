-- ===== src/Render/Text/Fonts/Search.antt =====
-- `TextDraw` of src/labelfab/render/elements.py: which sizes and cuts fit a box.
use native.Mathlib.Nat.{div-mul-le_self, mul-le-mul_right}
use labelfab.Common.{
  ℕ, zero, suc, ◌+◌, ◌-◌, ◌*◌, ◌/◌, ◌≤◌, ◌<◌, ◌≡◌, ◌⊎◌, inl, inr, refl, subst, ap, sym, min, max,
  Bool, true, List, [], ◌∷◌, ◌++◌, Option, none, some, length, take, length-take, ltb, All,
  Bool-cases, arith,
}
use labelfab.Render.Text.{Text, blank, newline}
use labelfab.Render.Text.Wraps.{Fit, wrap-Fit}
use labelfab.Render.Text.Lines.{length-wrap, wrap-lines}
use labelfab.Render.Text.Fonts.{
  Fonts, TextElement, ellipsis, without_last, map_last, lines_of, wrapped, in_box, found,
  search_from, shorten, cut_line, truncated, fit, tops,
}

-- Lines one under the other from the row `from` on, none below the row `to`.
abbrev pub Stacked : ℕ → ℕ → ℕ → List (ℕ × Text) → Type 0
Stacked lh from to [] = Unit
Stacked lh from to ((y, l) ∷ rows) = (from ≤ y) × (y + lh ≤ to) × Stacked lh (y + lh) to rows

pub tops-Stacked :
    (lh y to : ℕ) (lines : List Text)
    → y + length lines * lh ≤ to
    → Stacked lh y to (tops lh y lines)
unfolding tops
tops-Stacked lh y to [] h = tt
tops-Stacked lh y to (l ∷ ls) h =
    (omega arith, omega (arith, h), tops-Stacked lh (y + lh) to ls (omega (arith, h)))

map_last-All :
    (P : Text → Type 0) (f : Text → Text) (lines : List Text)
    → ((l : Text) → P (f l))
    → All P lines
    → All P (map_last f lines)
map_last-All P f [] h all = tt
map_last-All P f (l ∷ []) h all = (h l, tt)
map_last-All P f (l ∷ k ∷ ls) h (first, rest) = (first, map_last-All P f (k ∷ ls) h rest)

length-map_last : (f : Text → Text) (lines : List Text) → length (map_last f lines) ≡ length lines
length-map_last f [] = refl
length-map_last f (l ∷ []) = refl
length-map_last f (l ∷ k ∷ ls) = ap suc (length-map_last f (k ∷ ls))

take-All : (P : Text → Type 0) (n : ℕ) (lines : List Text) → All P lines → All P (take n lines)
take-All P zero lines h = tt
take-All P (suc n) [] h = tt
take-All P (suc n) (l ∷ ls) (first, rest) = (first, take-All P n ls rest)

max_room : (q k height : ℕ) → k ≤ height → q * k ≤ height → max 1 q * k ≤ height
max_room zero k height one all = omega (arith, one)
max_room (suc q) k height one all =
    let e : max 1 (suc q) ≡ suc q = omega arith in subst (λ m. m * k ≤ height) (sym e) all

-- As many lines as the height has room for are not higher than it.
pub room_for :
    (lh height m n : ℕ) → lh ≤ height → n ≤ max 1 (min m (height / max 1 lh)) → n * lh ≤ height
room_for zero height m n h le = omega arith
room_for (suc lh) height m n h le =
    let q = height / suc lh in
    let one : max 1 (suc lh) ≡ suc lh = omega arith in
    let le' : n ≤ max 1 (min m q) = subst (λ k. n ≤ max 1 (min m (height / k))) one le in
    let fewer : n ≤ max 1 q = omega (arith, le') in
    let more = mul-le-mul_right (suc lh) fewer in
    omega (arith, more, max_room q (suc lh) height h (div-mul-le_self height (suc lh)))

module _ {Size Font : Type 0} (fonts : Fonts Size Font) (spec : TextElement Size) where
  -- What is placed: lines that fit the box, each of them the width.
  abbrev pub InBox : ℕ → ℕ → Font × List Text → Type 0
  InBox width height (font, lines) =
      (0 < length lines)
      × (length lines ≤ spec.max_lines)
      × (length lines * fonts.line_height font ≤ height)
      × All (Fit (fonts.fits font width)) lines

  in_box-InBox :
      (font : Font) (width height : ℕ) (b : Bool) (o : Option (List Text)) (best : Font × List Text)
      → wrapped fonts spec font width b ≡ o
      → in_box fonts spec font height o ≡ true
      → found fonts spec font o ≡ some best
      → InBox width height best
  in_box-InBox font width height b none best e good f = cc
  in_box-InBox font width height b (some lines) best e good f =
      let g : (font, lines) ≡ best = cc in
      subst (InBox width height) g (
        length-wrap fonts.is_space (fonts.fits font width) b spec.value lines e,
        ground arith,
        ground arith,
        wrap-Fit fonts.is_space (fonts.fits font width) b spec.value lines e,
      )

  abbrev pub Best : ℕ → ℕ → Option (Font × List Text) → Type 0
  Best width height none = Unit
  Best width height (some best) = InBox width height best

  found-Best :
      (font : Font) (width height : ℕ) (b : Bool) (o : Option (List Text))
      → wrapped fonts spec font width b ≡ o
      → in_box fonts spec font height o ≡ true
      → Best width height (found fonts spec font o)
  found-Best font width height b none e good = tt
  found-Best font width height b (some lines) e good =
      in_box-InBox font width height b (some lines) (font, lines) e good refl

  pub search_from-Best :
      (rounds width height : ℕ) (b : Bool) (lo hi : Size) (best : Option (Font × List Text))
      → Best width height best
      → Best width height (search_from fonts spec rounds width height b lo hi best)
  unfolding search_from
  search_from-Best zero width height b lo hi best h = h
  search_from-Best (suc rounds) width height b lo hi best h =
      let mid = fonts.middle lo hi in
      let font = fonts.load mid in
      let lines = wrapped fonts spec font width b in
      elim (Bool-cases (fonts.near lo hi)) [
        | inl close ↦ rw close h
        | inr apart ↦ elim (Bool-cases (in_box fonts spec font height lines)) [
          | inl good ↦
              rw (apart, good)
                (search_from-Best rounds width height b mid hi (found fonts spec font lines)
                  (found-Best font width height b lines refl good))
          | inr bad ↦ rw (apart, bad) (search_from-Best rounds width height b lo mid best h)
        ]
      ]

  without_last-length : (l : Text) (n : ℕ) → length l ≤ suc n → length (without_last l) ≤ n
  without_last-length l n h = omega (arith, length-take (length l - 1) l)

  shorten-fits :
      (font : Font) (width n : ℕ) (l : Text)
      → length l ≤ n
      → (shorten fonts spec font width n l ≡ [])
        ⊎ (fonts.fits font width (shorten fonts spec font width n l ++ (ellipsis ∷ [])) ≡ true)
  unfolding shorten
  shorten-fits font width zero [] h = inl refl
  shorten-fits font width zero (c ∷ cs) h = absurd (omega arith)
  shorten-fits font width (suc n) [] h = inl refl
  shorten-fits font width (suc n) (c ∷ cs) h =
      elim (Bool-cases (fonts.fits font width ((c ∷ cs) ++ (ellipsis ∷ [])))) [
        | inl narrow ↦ rw narrow (inr narrow)
        | inr wide ↦
            rw wide
              (shorten-fits font width n (without_last (c ∷ cs)) (without_last-length (c ∷ cs) n h))
      ]

  cut_line-Fit :
      (font : Font) (width : ℕ) (l : Text)
      → Fit (fonts.fits font width) (cut_line fonts spec font width l)
  cut_line-Fit font width l = elim (shorten-fits font width (length l) l (omega arith)) [
    | inl nothing ↦ rw nothing (inr (omega arith))
    | inr narrow ↦ inl narrow
  ]

  pub truncated-lines :
      (font : Font) (width n : ℕ) (lines : List Text)
      → All (Fit (fonts.fits font width)) lines
      → (length (truncated fonts spec font width n lines) ≤ n)
        × All (Fit (fonts.fits font width)) (truncated fonts spec font width n lines)
  truncated-lines font width n lines h = elim (Bool-cases (ltb n (length lines))) [
    | inl long ↦
        let cut = cut_line fonts spec font width in
        rw long (
          omega (arith, length-map_last cut (take n lines), length-take n lines),
          map_last-All (Fit (fonts.fits font width)) cut (take n lines) (cut_line-Fit font width)
              (take-All (Fit (fonts.fits font width)) n lines h),
        )
    | inr short ↦ rw short (ground arith, h)
  ]

  -- The lines at the smallest size, before they are cut.
  pub floor_lines :
      (width : ℕ)
      → fonts.is_space blank ≡ true
      → fonts.is_space newline ≡ true
      → let font = fonts.load spec.min_pt in
        let lines = lines_of (wrapped fonts spec font width true) in
        (0 < length lines) × All (Fit (fonts.fits font width)) lines
  floor_lines width blank_space line_space =
      let font = fonts.load spec.min_pt in
      let (lines, made, fit, _) =
        wrap-lines fonts.is_space (fonts.fits font width) spec.value blank_space line_space in
      let e : lines_of (wrapped fonts spec font width true) ≡ lines = ap lines_of made in
      subst (λ ls. (0 < length ls) × All (Fit (fonts.fits font width)) ls) (sym e)
        (length-wrap fonts.is_space (fonts.fits font width) true spec.value lines made, fit)

  pub length-truncated :
      (font : Font) (width n : ℕ) (lines : List Text)
      → 0 < n
      → 0 < length lines
      → 0 < length (truncated fonts spec font width n lines)
  length-truncated font width n lines some_room some_line =
      elim (Bool-cases (ltb n (length lines))) [
        | inl long ↦
            let cut = cut_line fonts spec font width in
            rw long (omega (arith, length-map_last cut (take n lines), length-take n lines))
        | inr short ↦ rw short some_line
      ]
