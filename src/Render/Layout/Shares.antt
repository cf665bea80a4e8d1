-- ===== src/Render/Layout/Shares.antt =====
-- `_distribute` of src/labelfab/render/layout.py: how far the rounded shares are from what they share.
use native.Mathlib.Nat.{
  mul-le-mul_right, div-mul-le_self, lt-div-mul-add, div-le_of_le-mul, le-div_iff_mul-le, zero-div,
  le_of_mul-le-mul_right, lt_of_mul-lt-mul_right,
}
use labelfab.Common.{
  ℕ, zero, suc, ◌+◌, ◌*◌, ◌/◌, ◌≤◌, ◌<◌, ◌≡◌, refl, List, [], ◌∷◌, length, ltb, if◌then◌else◌,
  arith, Bool-cases, inl, inr, max,
}
use labelfab.Render.Layout.{sum, grow, add_at, elastic_of, widest_from, shrink_flex, shrink_all}

-- The whole pixels that parts of the weights `fs` get of `k`, the weights adding up to `t`.
unfoldable pub shares : ℕ → ℕ → List ℕ → ℕ
shares k t [] = 0
shares k t (f ∷ fs) = k * f / t + shares k t fs

shares_le : (k t : ℕ) (fs : List ℕ) → shares k t fs * t ≤ k * sum fs
unfolding shares sum
shares_le k t [] = omega arith
shares_le k t (f ∷ fs) = omega (arith, shares_le k t fs, div-mul-le_self (k * f) t)

shares_ge :
    (k t : ℕ) (fs : List ℕ) → 0 < t → k * sum fs + length fs ≤ (shares k t fs + length fs) * t
unfolding shares sum
shares_ge k t [] pos = omega arith
shares_ge k t (f ∷ fs) pos =
    omega (arith, shares_ge k t fs pos, lt-div-mul-add {a = k * f} {b = t} pos)

pub shares-sum_le : (k : ℕ) (fs : List ℕ) → 0 < sum fs → shares k (sum fs) fs ≤ k
shares-sum_le k fs pos = le_of_mul-le-mul_right (shares_le k (sum fs) fs) pos

pub shares-sum_ge :
    (k : ℕ) (fs : List ℕ) → 0 < sum fs → 0 < length fs → k < shares k (sum fs) fs + length fs
shares-sum_ge k fs pos some_fs =
    lt_of_mul-lt-mul_right (sum fs) (omega (arith, shares_ge k (sum fs) fs pos))

-- One size for each child, none of them larger than in the second list.
abbrev pub NoLarger : List ℕ → List ℕ → Type 0
NoLarger [] [] = Unit
NoLarger (m ∷ ms) (n ∷ ns) = (m ≤ n) × NoLarger ms ns
NoLarger _ _ = ⊥

pub NoLarger-refl : (ns : List ℕ) → NoLarger ns ns
NoLarger-refl [] = tt
NoLarger-refl (n ∷ ns) = (omega arith, NoLarger-refl ns)

pub NoLarger-trans : (ms ns ks : List ℕ) → NoLarger ms ns → NoLarger ns ks → NoLarger ms ks
NoLarger-trans [] [] ks a b = b
NoLarger-trans [] (n ∷ ns) ks a b = elim a [ ]
NoLarger-trans (m ∷ ms) [] ks a b = elim a [ ]
NoLarger-trans (m ∷ ms) (n ∷ ns) [] a b = elim b [ ]
NoLarger-trans (m ∷ ms) (n ∷ ns) (k ∷ ks) a b =
    (omega (arith, a.0, b.0), NoLarger-trans ms ns ks a.1 b.1)

pub sum-grow :
    (k t : ℕ) (ns fs : List ℕ)
    → length ns ≡ length fs
    → sum (grow k t ns fs) ≡ sum ns + shares k t fs
unfolding sum grow shares
sum-grow k t [] [] same = refl
sum-grow k t [] (f ∷ fs) same = absurd (omega arith)
sum-grow k t (n ∷ ns) [] same = absurd (omega arith)
sum-grow k t (n ∷ ns) (zero ∷ fs) same = omega (arith, sum-grow k t ns fs (omega arith), zero-div t)
sum-grow k t (n ∷ ns) (suc f ∷ fs) same = ground (arith, sum-grow k t ns fs (omega arith))

pub grow-NoLarger : (k t : ℕ) (ns fs : List ℕ) → NoLarger ns (grow k t ns fs)
unfolding grow
grow-NoLarger k t [] fs = tt
grow-NoLarger k t (n ∷ ns) [] = NoLarger-refl (n ∷ ns)
grow-NoLarger k t (n ∷ ns) (zero ∷ fs) = (omega arith, grow-NoLarger k t ns fs)
grow-NoLarger k t (n ∷ ns) (suc f ∷ fs) = (ground arith, grow-NoLarger k t ns fs)

pub add_at-NoLarger : (i m : ℕ) (ns : List ℕ) → NoLarger ns (add_at i m ns)
unfolding add_at
add_at-NoLarger i m [] = tt
add_at-NoLarger zero m (n ∷ ns) = (omega arith, NoLarger-refl ns)
add_at-NoLarger (suc i) m (n ∷ ns) = (omega arith, add_at-NoLarger i m ns)

pub sum-add_at : (i m : ℕ) (ns : List ℕ) → i < length ns → sum (add_at i m ns) ≡ sum ns + m
unfolding sum add_at
sum-add_at i m [] h = absurd (omega arith)
sum-add_at zero m (n ∷ ns) h = omega arith
sum-add_at (suc i) m (n ∷ ns) h = omega (arith, sum-add_at i m ns (omega arith))

-- The widest child is one of the children.
pub widest_from_lt :
    (best f i : ℕ) (fs : List ℕ) → best < i → widest_from best f i fs < i + length fs
unfolding widest_from
widest_from_lt best f i [] h = omega arith
widest_from_lt best f i (g ∷ fs) h = elim (Bool-cases (ltb f g)) [
  | inl more ↦ let rest = widest_from_lt i (max f g) (suc i) fs (omega arith) in ground arith
  | inr less ↦ let rest = widest_from_lt best (max f g) (suc i) fs (omega arith) in ground arith
]

-- The sizes of the children that have a weight, 0 for the others.
unfoldable pub elastics : List ℕ → List ℕ → List ℕ
elastics (n ∷ ns) (f ∷ fs) = (if ltb 0 f then n else 0) ∷ elastics ns fs
elastics ns _ = []

pub sum-elastics : (ns fs : List ℕ) → sum (elastics ns fs) ≡ elastic_of ns fs
unfolding elastics sum elastic_of
sum-elastics [] fs = refl
sum-elastics (n ∷ ns) [] = refl
sum-elastics (n ∷ ns) (f ∷ fs) = omega (arith, sum-elastics ns fs)

-- A share of `k` of the `t` that it is a part of, when that is not more than all.
part_le : (k t n : ℕ) → k ≤ t → k * n / t ≤ n
part_le k t n h = div-le_of_le-mul t (mul-le-mul_right n h)

pub shrink_flex-NoLarger : (k t : ℕ) (ns fs : List ℕ) → NoLarger (shrink_flex k t ns fs) ns
unfolding shrink_flex
shrink_flex-NoLarger k t [] fs = tt
shrink_flex-NoLarger k t (n ∷ ns) [] = NoLarger-refl (n ∷ ns)
shrink_flex-NoLarger k t (n ∷ ns) (zero ∷ fs) = (omega arith, shrink_flex-NoLarger k t ns fs)
shrink_flex-NoLarger k t (n ∷ ns) (suc f ∷ fs) = (ground arith, shrink_flex-NoLarger k t ns fs)

pub sum-shrink_flex :
    (k t : ℕ) (ns fs : List ℕ)
    → k ≤ t
    → sum (shrink_flex k t ns fs) + shares k t (elastics ns fs) ≡ sum ns
unfolding shrink_flex sum shares elastics
sum-shrink_flex k t [] fs h = refl
sum-shrink_flex k t (n ∷ ns) [] h = omega arith
sum-shrink_flex k t (n ∷ ns) (zero ∷ fs) h = omega (arith, sum-shrink_flex k t ns fs h, zero-div t)
sum-shrink_flex k t (n ∷ ns) (suc f ∷ fs) h =
    ground (arith, sum-shrink_flex k t ns fs h, part_le k t n h)

pub shrink_all-NoLarger : (k t : ℕ) (ns : List ℕ) → NoLarger (shrink_all k t ns) ns
unfolding shrink_all
shrink_all-NoLarger k t [] = tt
shrink_all-NoLarger k t (n ∷ ns) = (omega arith, shrink_all-NoLarger k t ns)

pub sum-shrink_all :
    (k t : ℕ) (ns : List ℕ) → k ≤ t → sum (shrink_all k t ns) + shares k t ns ≡ sum ns
unfolding shrink_all sum shares
sum-shrink_all k t [] h = refl
sum-shrink_all k t (n ∷ ns) h = omega (arith, sum-shrink_all k t ns h, part_le k t n h)

-- More than all there is to take leaves nothing.
pub sum-shrink_all_more : (k t : ℕ) (ns : List ℕ) → 0 < t → t ≤ k → sum (shrink_all k t ns) ≡ 0
unfolding shrink_all sum
sum-shrink_all_more k t [] pos h = refl
sum-shrink_all_more k t (n ∷ ns) pos h =
    let whole : n ≤ k * n / t = (le-div_iff_mul-le pos).1 (omega (arith, mul-le-mul_right n h)) in
    omega (arith, sum-shrink_all_more k t ns pos h, whole)
