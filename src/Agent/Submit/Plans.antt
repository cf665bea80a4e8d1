-- ===== src/Agent/Submit/Plans.antt =====
-- The loop of `submit` in src/labelfab/agent/worker.py: which labels of a job are queued.
use labelfab.Common.{
  Option-cases, ℕ, zero, suc, ◌≡◌, refl, ◌∙◌, false, List, [], ◌∷◌, Option, none, some, String,
  string_eq, All, All-append, replicate, Bool-cases, inl, inr, nat_eq,
}
use labelfab.Contract.{LabelSpec, PrintJob}
use labelfab.Agent.Coalescer.{Image}
use labelfab.Agent.Spool.{PrintedRow, label_is_printed, record_dedupe}
use labelfab.Agent.World.{Env, Rendering, drawn, unrenderable, invalid, World}
use labelfab.Agent.Submit.{
  Plan, plan_label, plan_labels, plan_unprinted, queue_label, is_duplicate, note_dedupe, new_acc,
}

-- A queued copy is of a label that is not committed as printed.
abbrev pub IsUnprinted : String → List PrintedRow → ℕ × Image → Type 0
IsUnprinted id rows q = label_is_printed id q.0 rows ≡ false

IsUnprinted-replicate :
    (id : String) (rows : List PrintedRow) (i n : ℕ) (image : Image)
    → label_is_printed id i rows ≡ false
    → All (IsUnprinted id rows) (replicate n (i, image))
IsUnprinted-replicate id rows i zero image h = tt
IsUnprinted-replicate id rows i (suc n) image h = (h, IsUnprinted-replicate id rows i n image h)

module _ (env : Env) where
  -- The plan is for the job `id`, with these labels committed, and what is queued is not among them.
  abbrev Sound : String → List PrintedRow → Plan → Type 0
  Sound id rows p =
      (p.acc.job.job_id ≡ id)
      × (p.world.spool.printed_rows ≡ rows)
      × All (IsUnprinted id rows) p.queued

  note_dedupe-rows :
      (d : Option String) (id : String) (w : World)
      → (note_dedupe env d id w).spool.printed_rows ≡ w.spool.printed_rows
  unfolding record_dedupe
  note_dedupe-rows none id w = refl
  note_dedupe-rows (some k) id w = refl

  queue_label-Sound :
      (id : String) (rows : List PrintedRow) (i : ℕ) (l : LabelSpec) (d : Option String)
      (o : Rendering) (p : Plan)
      → label_is_printed id i rows ≡ false
      → Sound id rows p
      → Sound id rows (queue_label env i l d o p)
  queue_label-Sound id rows i l d unrenderable p fresh s = s
  queue_label-Sound id rows i l d invalid p fresh s = s
  queue_label-Sound id rows i l d (drawn image) p fresh (same, kept, all) = (
    same,
    note_dedupe-rows d p.acc.job.job_id p.world ∙ kept,
    All-append (IsUnprinted id rows) p.queued (replicate l.copies (i, image)) all
        (IsUnprinted-replicate id rows i l.copies image fresh),
  )

  plan_unprinted-Sound :
      (id : String) (rows : List PrintedRow) (i : ℕ) (l : LabelSpec) (d : Option String) (p : Plan)
      → label_is_printed id i rows ≡ false
      → Sound id rows p
      → Sound id rows (plan_unprinted env i l d p)
  plan_unprinted-Sound id rows i l d p fresh s = elim (Bool-cases (is_duplicate d p.world.spool)) [
    | inl dup ↦ rw dup s
    | inr new ↦ rw new (queue_label-Sound id rows i l d _ p fresh s)
  ]

  plan_label-Sound :
      (id : String) (rows : List PrintedRow) (i : ℕ) (l : LabelSpec) (p : Plan)
      → Sound id rows p
      → Sound id rows (plan_label env i l p)
  unfolding plan_label
  plan_label-Sound id rows i l p s =
      elim (Bool-cases (label_is_printed p.acc.job.job_id i p.world.spool.printed_rows)) [
        | inl done ↦ rw done s
        | inr fresh ↦ rw fresh (plan_unprinted-Sound id rows i l _ p (rw (s.0, s.1) at fresh) s)
      ]

  -- The labels after the first, unless its rendering raised.
  planned-Sound :
      (id : String) (rows : List PrintedRow) (q rest : Plan)
      → Sound id rows q
      → Sound id rows rest
      → Sound id rows (elim q.fault as (λ x. Plan) [ none ↦ rest | some e ↦ q ])
  planned-Sound id rows q rest s all = elim (Option-cases q.fault) [
    | inl goes_on ↦ rw goes_on all
    | inr (e, raised) ↦ rw raised s
  ]

  plan_labels-Sound :
      (id : String) (rows : List PrintedRow) (i : ℕ) (ls : List LabelSpec) (p : Plan)
      → Sound id rows p
      → Sound id rows (plan_labels env i ls p)
  unfolding plan_labels
  plan_labels-Sound id rows i [] p s = s
  plan_labels-Sound id rows i (l ∷ ls) p s =
      let q = plan_label env i l p in
      let next = plan_label-Sound id rows i l p s in
      planned-Sound id rows q (plan_labels env (suc i) ls q) next
        (plan_labels-Sound id rows (suc i) ls q next)

-- When a job is submitted, again or for the first time, no copy of a label that is committed as
-- printed is queued for printing, and planning commits no label; this holds of what was planned when
-- the renderer raises too.
pub plan_labels-IsUnprinted :
    (env : Env) (job : PrintJob) (w : World)
    → let p =
        plan_labels env 0 job.labels
          (record { acc = new_acc job; queued = []; world = w; fault = none }) in
      All (IsUnprinted job.job_id w.spool.printed_rows) p.queued
      × (p.world.spool.printed_rows ≡ w.spool.printed_rows)
plan_labels-IsUnprinted env job w =
    let (same, kept, all) =
      plan_labels-Sound env job.job_id w.spool.printed_rows 0 job.labels
        (record { acc = new_acc job; queued = []; world = w; fault = none }) (refl, refl, tt) in
    (all, kept)
