-- ===== src/Render/Job/Heights.antt =====
-- How high and how long a label of src/labelfab/render/__init__.py is.
use labelfab.Common.{
  ℕ, ◌≤◌, ◌≡◌, refl, min, max, arith, Bool, true, false, Result, ok, err, >>=-eq-ok, ◌>>=◌,
}
use labelfab.Contract.{TapeSpec, LengthMm, auto, pinned, mm_to_px}
use labelfab.Common.{subst, if◌then◌else◌}
use labelfab.Render.{Size}
use labelfab.Render.Compose.{upright_on, upright, turned, min_label_length_mm, max_auto_length_mm}
use labelfab.Render.Compose.{
  RenderError, Drawable, Picture, compose, compose_portrait, landscape_px, portrait_px, canvas,
}
use labelfab.Render.Job.{
  RenderConfig, LabelLayout, rendering, Factory, preset, is_vertical, tree, or_tape,
  render_vertical, render_tree, render_label,
}

rendering-eq-ok {ℓ} :
    {A : Type ℓ} (r : Result RenderError A) {a : A} → rendering r ≡ ok a → r ≡ ok a
rendering-eq-ok (ok b) h = cc
rendering-eq-ok (err e) h = cc

-- How long a landscape label is: as it is pinned, or between the least and the greatest length.
abbrev pub IsLandscape : LengthMm → ℕ → Type 0
IsLandscape (pinned l) w = w ≡ max 1 (mm_to_px l)
IsLandscape auto w = (mm_to_px min_label_length_mm ≤ w) × (w ≤ mm_to_px max_auto_length_mm)

-- How long an upright label is: as it is pinned, or as its content.
abbrev pub IsUpright : LengthMm → ℕ → Type 0
IsUpright (pinned l) w = w ≡ max 1 (mm_to_px l)
IsUpright auto w = 1 ≤ w

portrait_px-IsUpright :
    (natural : ℕ) (l : LengthMm) (px : ℕ) → portrait_px natural l ≡ ok px → IsUpright l (max 1 px)
portrait_px-IsUpright natural auto px h = omega arith
portrait_px-IsUpright natural (pinned l) px h = ground arith

module _ {ℓ} {Ink : Type ℓ} where
  abbrev HasSize : ℕ → (ℕ → Type 0) → Result RenderError (Picture Ink) → Type 0
  HasSize height P (ok p) = (p.size.height ≡ height) × P p.size.width
  HasSize height P (err e) = Unit {0}

  landscape_px-IsLandscape :
      (d : Drawable Ink) (tape_px : ℕ) (l : LengthMm) (px : ℕ)
      → landscape_px d tape_px l ≡ ok px
      → IsLandscape l (max 1 px)
  unfolding mm_to_px
  landscape_px-IsLandscape d tape_px (pinned l) px h = ground arith
  landscape_px-IsLandscape d tape_px auto px h =
      let (size, measured, clamped) =
        >>=-eq-ok (d.measure (mm_to_px max_auto_length_mm) tape_px) _ h in
      let px_is : max (mm_to_px min_label_length_mm) (min size.0 (mm_to_px max_auto_length_mm))
          ≡ px =
        cc in
      (omega (arith, px_is), omega (arith, px_is))

  upright_on-HasSize :
      (d : Drawable Ink) (size : Size) (P : ℕ → Type 0)
      → P size.width
      → HasSize size.height P (upright_on d size)
  upright_on-HasSize d size P h = drawn (d.draw size)
    where
      drawn :
          (r : Result RenderError Ink)
          → HasSize size.height P
              (r >>= λ ink. ok (record { size = size; ink = ink; turn = upright }))
      drawn (ok ink) = (refl, h)
      drawn (err e) = tt

  compose-HasSize :
      (d : Drawable Ink) (tape : TapeSpec) (l : LengthMm)
      → HasSize (max 1 (mm_to_px tape.width_mm)) (IsLandscape l) (compose d tape l)
  unfolding compose canvas
  compose-HasSize d tape l = composed (landscape_px d (mm_to_px tape.width_mm) l) refl
    where
      composed :
          (r : Result RenderError ℕ)
          → landscape_px d (mm_to_px tape.width_mm) l ≡ r
          → HasSize
              (max 1 (mm_to_px tape.width_mm))
              (IsLandscape l)
              (r >>= λ px. upright_on d (canvas px (mm_to_px tape.width_mm)))
      composed (ok px) e =
          upright_on-HasSize d (canvas px (mm_to_px tape.width_mm)) (IsLandscape l)
            (landscape_px-IsLandscape d (mm_to_px tape.width_mm) l px e)
      composed (err e) _ = tt

  compose_portrait-HasSize :
      (d : Drawable Ink) (tape : TapeSpec) (l : LengthMm) (flip : Bool)
      → HasSize (max 1 (mm_to_px tape.width_mm)) (IsUpright l) (compose_portrait d tape l flip)
  unfolding compose_portrait canvas
  compose_portrait-HasSize d tape l flip =
      measured (d.measure (mm_to_px tape.width_mm) (mm_to_px max_auto_length_mm))
    where
      drawn :
          (px : ℕ) (r : Result RenderError Ink)
          → IsUpright l (max 1 px)
          → HasSize
              (max 1 (mm_to_px tape.width_mm))
              (IsUpright l)
              (r >>= λ ink. ok (turned flip (canvas (mm_to_px tape.width_mm) px) ink))
      drawn px (ok ink) h = (refl, h)
      drawn px (err e) h = tt

      pinned_to :
          (natural : ℕ) (r : Result RenderError ℕ)
          → portrait_px natural l ≡ r
          → HasSize (max 1 (mm_to_px tape.width_mm)) (IsUpright l) (
              r >>= λ px. d.draw (canvas (mm_to_px tape.width_mm) px) >>= λ ink.
              ok (turned flip (canvas (mm_to_px tape.width_mm) px) ink))
      pinned_to natural (ok px) e =
          drawn px (d.draw (canvas (mm_to_px tape.width_mm) px))
            (portrait_px-IsUpright natural l px e)
      pinned_to natural (err e) _ = tt

      measured :
          (r : Result RenderError (ℕ × ℕ))
          → HasSize (max 1 (mm_to_px tape.width_mm)) (IsUpright l) (
              r >>= λ (_, natural). portrait_px natural l >>= λ px.
              d.draw (canvas (mm_to_px tape.width_mm) px) >>= λ ink.
              ok (turned flip (canvas (mm_to_px tape.width_mm) px) ink))
      measured (ok (w, natural)) = pinned_to natural (portrait_px natural l) refl
      measured (err e) = tt

-- The length that is asked for, and how it is met: lying or standing.
abbrev pub IsAsked : Bool → LabelLayout → TapeSpec → ℕ → Type 0
IsAsked true label tape w = IsUpright label.length_mm w
IsAsked false label tape w = IsLandscape (or_tape label.length_mm tape.length_mm) w

branch-sized {ℓ} :
    {Ink : Type ℓ} (factory : Factory Ink) (label : LabelLayout) (tape : TapeSpec)
    (cfg : RenderConfig) (p : Picture Ink) (stands : Bool)
    → (if stands
        then render_vertical factory label tape cfg
        else render_tree factory label tape cfg)
      ≡ ok p
    → (p.size.height ≡ max 1 (mm_to_px tape.width_mm)) × IsAsked stands label tape p.size.width
branch-sized factory label tape cfg p true h =
    subst (HasSize (max 1 (mm_to_px tape.width_mm)) (IsUpright label.length_mm))
      (rendering-eq-ok _ h) (compose_portrait-HasSize _ tape label.length_mm cfg.vertical_flip)
branch-sized factory label tape cfg p false h =
    let (b, built, rest) = >>=-eq-ok (tree label cfg) _ h in
    let l = or_tape label.length_mm tape.length_mm in
    subst (HasSize (max 1 (mm_to_px tape.width_mm)) (IsLandscape l)) (rendering-eq-ok _ rest)
      (compose-HasSize (factory.build b) tape l)

-- Every label that is rendered is as high as the tape is wide, in whole pixels and at least one. A
-- pinned length is its length in pixels, at least one; a label without is 64 to 1598 pixels long if
-- it lies along the tape.
pub render_label-sized {ℓ} :
    {Ink : Type ℓ} (factory : Factory Ink) (label : LabelLayout) (tape : TapeSpec)
    (cfg : RenderConfig) (p : Picture Ink)
    → render_label factory label tape cfg ≡ ok p
    → (p.size.height ≡ max 1 (mm_to_px tape.width_mm))
      × IsAsked (is_vertical (preset label cfg)) label tape p.size.width
unfolding render_label
render_label-sized factory label tape cfg p h =
    branch-sized factory label tape cfg p (is_vertical (preset label cfg)) h
