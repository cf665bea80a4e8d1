-- ===== src/Render/Lengths.antt =====
-- `concat_strip` of src/labelfab/render/raster.py: where the labels stand, and the length of the strip
-- against `Coalescer.length_mm`.
use labelfab.Common.{
  Bool-cases, inl, inr, ◌++◌, append_assoc, ℕ, zero, suc, ◌+◌, ◌-◌, ◌*◌, ◌≤◌, ◌≡◌, refl, ap, subst,
  sym, ◌∙◌, Bool, true, false, List, [], ◌∷◌, map, length, arith, if◌then◌else◌, ok, err,
}
use labelfab.Contract.{px_units, mm_to_px}
use labelfab.Agent.Coalescer
use labelfab.Agent.Coalescer.{Coalescer, PendingLabel, pixels_of, strip_length}
use labelfab.Render.{
  separator, paste, draw_strip, separator_if, Size, Strip, unequal_heights, sum_widths,
  same_heights, separators, Drawn, draw_labels, concat_strip,
}

-- Rounding to a pixel moves a length by half a pixel at most.
mm_to_px_lem : (u : ℕ) → (mm_to_px u * 12700 ≤ u + 6350) × (u ≤ mm_to_px u * 12700 + 6350)
unfolding mm_to_px
mm_to_px_lem u = ground arith

-- Labels at the edges `ps`, one after the other and none over another, from column `x` to column
-- `end`.
abbrev pub Placed : ℕ → List Size → List ℕ → ℕ → Type 0
Placed x [] [] end = x ≤ end
Placed x (l ∷ ls) (p ∷ ps) end = (x ≤ p) × Placed (p + l.width) ls ps end
Placed x _ _ end = ⊥

-- How many separators are drawn from a label on that `n` labels follow.
abbrev marks_after : Bool → ℕ → ℕ
marks_after true n = suc n
marks_after false n = n

Placed-later :
    (x y : ℕ) (ls : List Size) (ps : List ℕ) (end : ℕ)
    → x ≤ y
    → Placed y ls ps end
    → Placed x ls ps end
Placed-later x y [] [] end le h = omega arith
Placed-later x y [] (p ∷ ps) end le h = h
Placed-later x y (l ∷ ls) [] end le h = h
Placed-later x y (l ∷ ls) (p ∷ ps) end le h = (omega (arith, h.0), h.1)

x-draw_labels :
    (b : Bool) (sep : ℕ) (l : Size) (ls : List Size) (d : Drawn)
    → (draw_labels b sep (l ∷ ls) d).x ≡ d.x + sum_widths (l ∷ ls) + sep * marks_after b (length ls)
unfolding draw_labels sum_widths
x-draw_labels true sep l [] d = omega arith
x-draw_labels false sep l [] d = omega arith
x-draw_labels true sep l (k ∷ ls) d = omega (arith, x-draw_labels true sep k ls _)
x-draw_labels false sep l (k ∷ ls) d = omega (arith, x-draw_labels false sep k ls _)

draw_labels-Placed :
    (b : Bool) (sep : ℕ) (l : Size) (ls : List Size) (d : Drawn)
    → (ps : List ℕ) × ((draw_labels b sep (l ∷ ls) d).labels ≡ d.labels ++ ps)
      × Placed d.x (l ∷ ls) ps (draw_labels b sep (l ∷ ls) d).x
unfolding draw_labels
draw_labels-Placed true sep l [] d = (d.x ∷ [], refl, (omega arith, omega arith))
draw_labels-Placed false sep l [] d = (d.x ∷ [], refl, (omega arith, omega arith))
draw_labels-Placed b sep l (k ∷ ls) d =
    let next : Drawn = separator sep (paste l d) in
    let (ps, same, placed) = draw_labels-Placed b sep k ls next in
    (
      d.x ∷ ps,
      same ∙ append_assoc d.labels (d.x ∷ []) ps,
      (omega arith, Placed-later (d.x + l.width) next.x (k ∷ ls) ps _ (omega arith) placed),
    )

separators-marks :
    (b : Bool) (sep n : ℕ)
    → sep * separators b (suc n) ≡ (if b then sep else 0) + sep * marks_after b n
separators-marks true sep n = omega arith
separators-marks false sep n =
    let m : suc n - 1 ≡ n = omega arith in
    let e : sep * (suc n - 1) ≡ sep * n = ap (λ k. sep * k) m in omega (arith, e)

x-separator_if :
    (b : Bool) (sep : ℕ) (d : Drawn) → (separator_if b sep d).x ≡ d.x + (if b then sep else 0)
x-separator_if true sep d = refl
x-separator_if false sep d = omega arith

labels-separator_if : (b : Bool) (sep : ℕ) (d : Drawn) → (separator_if b sep d).labels ≡ d.labels
labels-separator_if true sep d = refl
labels-separator_if false sep d = refl

draw_strip-Placed :
    (b : Bool) (sep : ℕ) (l : Size) (ls : List Size)
    → let s = draw_strip b sep l ls in Placed 0 (l ∷ ls) s.labels s.width
draw_strip-Placed b sep l ls =
    let start : Drawn = record { x = 0; labels = []; ticks = [] } in
    let from : Drawn = separator_if b sep start in
    let (ps, same, placed) = draw_labels-Placed b sep l ls from in
    let labels : (draw_labels b sep (l ∷ ls) from).labels ≡ ps =
      same ∙ ap (λ qs. qs ++ ps) (labels-separator_if b sep start) in
    let width : (draw_labels b sep (l ∷ ls) from).x ≡ (draw_strip b sep l ls).width = omega (
      arith,
      x-draw_labels b sep l ls from,
      x-separator_if b sep start,
      separators-marks b sep (length ls),
    ) in
    subst (λ qs. Placed 0 (l ∷ ls) qs (draw_strip b sep l ls).width) (sym labels)
      (subst (λ x. Placed 0 (l ∷ ls) ps x) width
        (Placed-later 0 from.x (l ∷ ls) ps _ (omega arith) placed))

-- Whenever a strip is made, its labels stand in it one after the other, none over another and none
-- over its end.
pub concat_strip-Placed :
    (ls : List Size) (separator_mm : ℕ) (bookends : Bool) (s : Strip)
    → concat_strip ls separator_mm bookends ≡ ok s
    → Placed 0 ls s.labels s.width
unfolding concat_strip
concat_strip-Placed [] u b s h = cc
concat_strip-Placed (l ∷ ls) u b s h = ground (arith, draw_strip-Placed b (mm_to_px u) l ls)

scale_up : (m u n : ℕ) → m * 12700 ≤ u + 6350 → m * n * 12700 ≤ u * n + 6350 * n
scale_up m u zero h = omega arith
scale_up m u (suc n) h = omega (arith, scale_up m u n h)

scale_down : (m u n : ℕ) → u ≤ m * 12700 + 6350 → u * n ≤ m * n * 12700 + 6350 * n
scale_down m u zero h = omega arith
scale_down m u (suc n) h = omega (arith, scale_down m u n h)

abbrev pub size_of : PendingLabel → Size
size_of p = record { width = p.image.width; height = p.image.height }

sum_widths-pixels : (ls : List PendingLabel) → sum_widths (map size_of ls) ≡ pixels_of ls
unfolding sum_widths pixels_of
sum_widths-pixels [] = refl
sum_widths-pixels (l ∷ ls) = ap (λ n. l.image.width + n) (sum_widths-pixels ls)

length-map : (ls : List PendingLabel) → length (map size_of ls) ≡ length ls
length-map [] = refl
length-map (l ∷ ls) = ap suc (length-map ls)

-- The columns of a bookended strip of the labels `l` and `ls`.
width-labels :
    (l : PendingLabel) (ls : List PendingLabel) (sep : ℕ)
    → (draw_strip true sep (size_of l) (map size_of ls)).width
      ≡ pixels_of (l ∷ ls) + sep * (length (l ∷ ls) + 1)
width-labels l ls sep =
    let n = length-map ls in
    let e : sep * (suc (length (map size_of ls)) + 1) ≡ sep * (suc (length ls) + 1) =
      ap (λ k. sep * (suc k + 1)) n in
    omega (arith, e, sum_widths-pixels (l ∷ ls))

within :
    (ls : List PendingLabel) (u : ℕ) (s : Strip)
    → concat_strip (map size_of ls) u true ≡ ok s
    → let slack = 6350 * (length ls + 1) in
      (s.width * px_units ≤ strip_length u ls + slack)
      × (strip_length u ls ≤ s.width * px_units + slack)
unfolding concat_strip
within [] u s h = cc
within (l ∷ ls) u s h = elim (Bool-cases (same_heights l.image.height (map size_of ls))) [
  | inl same ↦
      let made : ok (draw_strip true (mm_to_px u) (size_of l) (map size_of ls)) ≡ ok s =
        rw same at h in
      let e : draw_strip true (mm_to_px u) (size_of l) (map size_of ls) ≡ s = cc in
      let w : (draw_strip true (mm_to_px u) (size_of l) (map size_of ls)).width ≡ s.width =
        ap (λ t. t.width) e in
      let n = length (l ∷ ls) + 1 in
      let up = scale_up (mm_to_px u) u n (mm_to_px_lem u).0 in
      let down = scale_down (mm_to_px u) u n (mm_to_px_lem u).1 in
      let columns = width-labels l ls (mm_to_px u) in
      (omega (arith, w, up, columns), omega (arith, w, down, columns))
  | inr other ↦ let bad : err unequal_heights ≡ ok s = rw other at h in cc
]

-- What the coalescer reckons for its strip, against the columns of the strip that is printed: they
-- differ by half a pixel for each separator at most.
pub concat_strip-length_mm :
    (c : Coalescer) (s : Strip)
    → concat_strip (map size_of c.pending) c.separator_mm true ≡ ok s
    → let slack = 6350 * (length c.pending + 1) in
      (s.width * px_units ≤ Coalescer.length_mm c + slack)
      × (Coalescer.length_mm c ≤ s.width * px_units + slack)
unfolding Coalescer.length_mm
concat_strip-length_mm c s h = within c.pending c.separator_mm s h
