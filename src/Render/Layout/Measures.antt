-- ===== src/Render/Layout/Measures.antt =====
-- `BoxLayout.measure` of src/labelfab/render/layout.py against what `Drawable` asks of `measure`.
use labelfab.Common.{
  ℕ, ◌+◌, ◌-◌, ◌*◌, ◌≤◌, ◌≡◌, refl, List, [], ◌∷◌, All, max, pos, int_sub, to_nat, arith,
}
use labelfab.Render.Layout.{
  oriented, Child, BoxLayout, Direction, row, col, measure_child, measure_from, gaps, main_side,
  cross_side, main_of, cross_of, measure,
}

-- `Drawable.measure`: a natural size that does not exceed the available area.
abbrev pub Modest : Child → Type 0
Modest c = (w h : ℕ) → ((c.measure (pos w) (pos h)).0 ≤ w) × ((c.measure (pos w) (pos h)).1 ≤ h)

measure_child-Modest :
    (dir : Direction) (main cross : ℕ) (c : Child)
    → Modest c
    → let size = measure_child dir (pos main) (pos cross) c in
      (main_of dir size ≤ main) × (cross_of dir size ≤ cross)
measure_child-Modest row main cross c m = m main cross
measure_child-Modest col main cross c m = ((m cross main).1, (m cross main).0)

int_sub-to_nat : (a b : ℕ) → to_nat (int_sub a b) ≡ a - b
int_sub-to_nat a b = ground arith

measure_from-fits :
    (dir : Direction) (k avail : ℕ) (cs : List Child) (total widest : ℕ)
    → All Modest cs
    → total ≤ k
    → widest ≤ avail
    → let size = measure_from dir (pos k) avail cs total widest in (size.0 ≤ k) × (size.1 ≤ avail)
unfolding measure_from
measure_from-fits dir k avail [] total widest m fits narrow = (fits, narrow)
measure_from-fits dir k avail (c ∷ cs) total widest (m, ms) fits narrow =
    let left = to_nat (int_sub k total) in
    let size = measure_child dir (pos left) (pos avail) c in
    let (less, narrower) = measure_child-Modest dir left avail c m in
    measure_from-fits dir k avail cs (total + main_of dir size) (max widest (cross_of dir size)) ms
      (omega (arith, less, int_sub-to_nat k total)) (omega (arith, narrower))

fits_inside :
    (b : BoxLayout) (room avail : ℕ)
    → All Modest b.children
    → gaps b ≤ room
    → let size = measure_from b.direction (int_sub room (gaps b)) avail b.children 0 0 in
      (size.0 + gaps b ≤ room) × (size.1 ≤ avail)
fits_inside b room avail ms long =
    let k = room - gaps b in
    let e : int_sub room (gaps b) ≡ pos k = ground arith in
    let (less, narrow) =
      measure_from-fits b.direction k avail b.children 0 0 ms (omega arith) (omega arith) in
    rw e (omega (arith, less, long), narrow)

sides-less :
    (dir : Direction) (w h p : ℕ)
    → (main_side dir (w - p) (h - p) ≡ main_side dir w h - p)
      × (cross_side dir (w - p) (h - p) ≡ cross_side dir w h - p)
sides-less row w h p = (refl, refl)
sides-less col w h p = (refl, refl)

oriented_le :
    (dir : Direction) (main cross w h : ℕ)
    → main ≤ main_side dir w h
    → cross ≤ cross_side dir w h
    → ((oriented dir main cross).0 ≤ w) × ((oriented dir main cross).1 ≤ h)
oriented_le row main cross w h long wide = (long, wide)
oriented_le col main cross w h long wide = (wide, long)

-- A box whose children keep to the area that they are offered keeps to its own, when the area has
-- room for the padding and the gaps.
pub measure-fits :
    (b : BoxLayout) (w h : ℕ)
    → All Modest b.children
    → b.padding_px * 2 + gaps b ≤ main_side b.direction w h
    → b.padding_px * 2 ≤ cross_side b.direction w h
    → ((measure b (pos w) (pos h)).0 ≤ w) × ((measure b (pos w) (pos h)).1 ≤ h)
unfolding measure
measure-fits b w h ms long wide =
    let p = b.padding_px * 2 in
    let d = b.direction in
    let (main_less, cross_less) = sides-less d w h p in
    let (less, narrow) =
      fits_inside b (main_side d (w - p) (h - p)) (cross_side d (w - p) (h - p)) ms
        (omega (arith, main_less, long)) in
    oriented_le d _ _ w h (omega (arith, less, main_less, long))
      (omega (arith, narrow, cross_less, wide))
