-- ===== src/Render/Job/Strips.antt =====
-- `render_job` of src/labelfab/render/__init__.py and `concat_strip`: the pictures of a job make a strip.
use labelfab.Common.{
  ℕ, zero, suc, ◌+◌, ◌≤◌, ◌≡◌, refl, ap, max, arith, Bool, true, List, [], ◌∷◌, map, replicate,
  length, length-append, ok, >>=-eq-ok, All, All-append, ==_iff,
}
use labelfab.Common.{ok-injective, subst}
use labelfab.Contract.{TapeSpec, mm_to_px}
use labelfab.Render.{Size, Strip, same_heights, draw_strip, concat_strip}
use labelfab.Render.Compose.{Picture}
use labelfab.Render.Job.{RenderConfig, LabelLayout, Factory, render_label, render_job}
use labelfab.Render.Job.Heights.{render_label-sized}

abbrev pub sizes {ℓ} : {Ink : Type ℓ} → List (Picture Ink) → List Size
sizes ps = map (λ p. p.size) ps

abbrev pub copies : List LabelLayout → ℕ
copies [] = 0
copies (l ∷ ls) = l.copies + copies ls

abbrev pub HasHeight {ℓ} : {Ink : Type ℓ} → ℕ → Picture Ink → Type 0
HasHeight h p = p.size.height ≡ h

All-replicate {ℓ} :
    {Ink : Type ℓ} (h n : ℕ) (p : Picture Ink) → HasHeight h p → All (HasHeight h) (replicate n p)
All-replicate h zero p e = tt
All-replicate h (suc n) p e = (e, All-replicate h n p e)

length-replicate {ℓ} : {A : Type ℓ} (n : ℕ) (x : A) → length (replicate n x) ≡ n
length-replicate zero x = refl
length-replicate (suc n) x = ap suc (length-replicate n x)

same_heights-All {ℓ} :
    {Ink : Type ℓ} (h : ℕ) (ps : List (Picture Ink))
    → All (HasHeight h) ps
    → same_heights h (sizes ps) ≡ true
unfolding same_heights
same_heights-All h [] t = refl
same_heights-All h (p ∷ ps) (here, there) =
    rw (here, (==_iff h h).1 refl) (same_heights-All h ps there)

module _ {ℓ} {Ink : Type ℓ} (factory : Factory Ink) (tape : TapeSpec) (cfg : RenderConfig) where
  -- As many pictures as there are copies, each as high as the tape is wide.
  abbrev Sized : List LabelLayout → List (Picture Ink) → Type 0
  Sized ls ps = (length ps ≡ copies ls) × All (HasHeight (max 1 (mm_to_px tape.width_mm))) ps

  render_job-Sized :
      (ls : List LabelLayout) (ps : List (Picture Ink))
      → render_job factory ls tape cfg ≡ ok ps
      → Sized ls ps
  unfolding render_job
  render_job-Sized [] ps h = subst (Sized []) (ok-injective h) (refl, tt)
  render_job-Sized (l ∷ ls) ps h =
      let (p, rendered, rest) = >>=-eq-ok (render_label factory l tape cfg) _ h in
      let (qs, others, joined) = >>=-eq-ok (render_job factory ls tape cfg) _ rest in
      let (counted, high) = render_job-Sized ls qs others in
      let (height, _) = render_label-sized factory l tape cfg p rendered in
      subst (Sized (l ∷ ls)) (ok-injective joined) (
        omega
            (arith, counted, length-append (replicate l.copies p) qs, length-replicate l.copies p),
        All-append (HasHeight (max 1 (mm_to_px tape.width_mm))) (replicate l.copies p) qs
            (All-replicate (max 1 (mm_to_px tape.width_mm)) l.copies p height) high,
      )

concat_strip-joins {ℓ} :
    {Ink : Type ℓ} (h : ℕ) (ps : List (Picture Ink)) (separator_mm : ℕ) (bookends : Bool)
    → 1 ≤ length ps
    → All (HasHeight h) ps
    → (s : Strip) × (concat_strip (sizes ps) separator_mm bookends ≡ ok s) × (s.height ≡ h)
unfolding concat_strip
concat_strip-joins h [] u b some_label t = absurd (omega arith)
concat_strip-joins h (p ∷ ps) u b some_label (here, there) =
    (draw_strip b (mm_to_px u) p.size (sizes ps), rw (here, same_heights-All h ps there) refl, here)

-- The pictures of a job that is rendered are as many as its labels have copies, and if there is one
-- they can be joined into a strip, with bookends or without, which is as high as the tape is wide.
pub render_job-joins {ℓ} :
    {Ink : Type ℓ} (factory : Factory Ink) (ls : List LabelLayout) (tape : TapeSpec)
    (cfg : RenderConfig) (ps : List (Picture Ink)) (separator_mm : ℕ) (bookends : Bool)
    → render_job factory ls tape cfg ≡ ok ps
    → 1 ≤ copies ls
    → (length ps ≡ copies ls)
      × (s : Strip) × (concat_strip (sizes ps) separator_mm bookends ≡ ok s)
      × (s.height ≡ max 1 (mm_to_px tape.width_mm))
render_job-joins factory ls tape cfg ps u b rendered some_copy =
    let (counted, high) = render_job-Sized factory tape cfg ls ps rendered in
    let (s, joined, high_as) =
      concat_strip-joins (max 1 (mm_to_px tape.width_mm)) ps u b (omega (arith, counted)) high in
    (counted, s, joined, high_as)
