-- ===== src/Render/Vertical/Lines.antt =====
-- `fit_line` of src/labelfab/render/vertical.py: the size that is taken.
use labelfab.Common.{
  ℕ, zero, suc, ◌+◌, ◌-◌, ◌≤◌, ◌<◌, ◌≡◌, ◌⊎◌, inl, inr, refl, Bool, true, false, Option, none, some,
  Bool-cases, arith, ltb, subst, sym,
}
use labelfab.Render.Text.{Text}
use labelfab.Render.Vertical.{Faces, Line, smart_cut, largest, or_cut, fit_line}

-- At no size from `lo` to `hi` does the text fit.
abbrev pub TooWide : (ℕ → Bool) → ℕ → ℕ → Type 0
TooWide fits_at lo hi = (t : ℕ) → lo ≤ t → t ≤ hi → fits_at t ≡ false

abbrev pub Largest : (ℕ → Bool) → ℕ → ℕ → Option ℕ → Type 0
Largest fits_at lo hi none = TooWide fits_at lo hi
Largest fits_at lo hi (some size) =
    (lo ≤ size) × (size ≤ hi) × (fits_at size ≡ true) × TooWide fits_at (suc size) hi

TooWide-hi :
    (fits_at : ℕ → Bool) (lo k : ℕ)
    → fits_at (suc k) ≡ false
    → TooWide fits_at lo k
    → TooWide fits_at lo (suc k)
TooWide-hi fits_at lo k wide rest t low high = elim (Bool-cases (ltb t (suc k))) [
  | inl less ↦ rest t low (ground arith)
  | inr same ↦ let e : t ≡ suc k = ground arith in subst (λ u. fits_at u ≡ false) (sym e) wide
]

Largest-hi :
    (fits_at : ℕ → Bool) (lo k : ℕ) (o : Option ℕ)
    → fits_at (suc k) ≡ false
    → Largest fits_at lo k o
    → Largest fits_at lo (suc k) o
Largest-hi fits_at lo k none wide h = TooWide-hi fits_at lo k wide h
Largest-hi fits_at lo k (some size) wide (low, high, fit, above) =
    (low, omega (arith, high), fit, TooWide-hi fits_at (suc size) k wide above)

largest-Largest :
    (fits_at : ℕ → Bool) (lo n hi : ℕ)
    → 0 < lo
    → suc hi ≡ lo + n
    → Largest fits_at lo hi (largest fits_at n hi)
unfolding largest
largest-Largest fits_at lo zero hi pos whole = λ t low high. absurd (omega arith)
largest-Largest fits_at lo (suc n) zero pos whole = absurd (omega arith)
largest-Largest fits_at lo (suc n) (suc k) pos whole = elim (Bool-cases (fits_at (suc k))) [
  | inl fit ↦ rw fit (omega arith, omega arith, fit, λ t low high. absurd (omega arith))
  | inr wide ↦
      let e : suc k - 1 ≡ k = omega arith in
      rw (wide, e)
        (Largest-hi fits_at lo k (largest fits_at n k) wide
          (largest-Largest fits_at lo n k pos (omega arith)))
]

-- What `fit_line` comes to.
abbrev pub IsFitted : Faces → Text → Bool → Bool → ℕ → ℕ → ℕ → Line → Type 0
IsFitted faces text bold condensed width lo hi l =
    let fits_at : ℕ → Bool = λ size. faces.fits bold condensed size width text in
    ((l.text ≡ text)
      × (lo ≤ l.size)
      × (l.size ≤ hi)
      × (fits_at l.size ≡ true)
      × TooWide fits_at (suc l.size) hi)
    ⊎ (TooWide fits_at lo hi
        × (l.size ≡ lo)
        × (l.text
            ≡ smart_cut faces.is_space faces.is_dangling (faces.fits bold condensed lo width) text))

or_cut-IsFitted :
    (faces : Faces) (text : Text) (bold condensed : Bool) (width lo hi : ℕ) (o : Option ℕ)
    → Largest (λ size. faces.fits bold condensed size width text) lo hi o
    → IsFitted faces text bold condensed width lo hi (or_cut faces text bold condensed width lo o)
or_cut-IsFitted faces text bold condensed width lo hi none h = inr (h, refl, refl)
or_cut-IsFitted faces text bold condensed width lo hi (some size) (low, high, fit, above) =
    inl (refl, low, high, fit, above)

-- A line is the whole text at the largest size of the range at which it fits, or, when it fits at
-- none, its cut at the smallest.
pub fit_line-IsFitted :
    (faces : Faces) (text : Text) (bold condensed : Bool) (width lo hi : ℕ)
    → 0 < lo
    → lo ≤ hi
    → IsFitted faces text bold condensed width lo hi
        (fit_line faces text bold condensed width lo hi)
unfolding fit_line
fit_line-IsFitted faces text bold condensed width lo hi pos range =
    or_cut-IsFitted faces text bold condensed width lo hi _ (
      largest-Largest (λ size. faces.fits bold condensed size width text) lo (hi + 1 - lo) hi pos
        (omega arith))
