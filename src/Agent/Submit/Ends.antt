-- ===== src/Agent/Submit/Ends.antt =====
-- `submit` of src/labelfab/agent/worker.py for a job that is printed label by label: from the plan to
-- the result.
use labelfab.Common.{
  Option-cases, ℕ, zero, suc, ◌+◌, ◌≤◌, ◌≡◌, refl, ◌∙◌, ap, subst, sym, false, List, [], ◌∷◌,
  Option, none, some, String, string_eq, nat_eq, arith, replicate, Bool-cases, inl, inr, dict_get,
  dict_get-dict_set, length, length-append, ◌==◌, beq_self,
}
use labelfab.Contract.{LabelState, skipped_duplicate, printed, failed, LabelSpec, PrintJob}
use labelfab.Agent.Coalescer.{Image}
use labelfab.Agent.Spool.{
  payload_of, JobRow, find_job, load, update_rows, label_is_printed, mark, record_dedupe, printing,
}
use labelfab.Agent.World.{
  JobAcc, Env, Rendering, drawn, unrenderable, invalid, validation_error, World,
}
use labelfab.Agent.Accounting.{sum_values, settled, total_expected, count_of, or_zero, set_acc}
use labelfab.Agent.Accounting.Stalls.{row_state}
use labelfab.Agent.Printing.Endings.{sum_values-dict_set, HasLeft, HasLeft-step, finalize-HasLeft}
use labelfab.Agent.Submit.{
  Plan, plan_label, plan_labels, plan_unprinted, queue_label, is_duplicate, note_dedupe, new_acc,
  set_label, loaded_tape, plan_of, print_queued, print_plan, submit, other_model, mark_printing,
  accept_job, run_job,
}

length-replicate : (n : ℕ) (x : ℕ × Image) → length (replicate n x) ≡ n
length-replicate zero x = refl
length-replicate (suc n) x = ap suc (length-replicate n x)

-- Planning leaves the rows, the other jobs and the strip alone.
record Untouched (w v : World) : Type 0 where
  jobs_same : v.spool.jobs ≡ w.spool.jobs
  acc_same : v.acc ≡ w.acc
  coalescer_same : v.coalescer ≡ w.coalescer

-- Nothing is settled, each copy that is expected is queued, and no label from `i` on is counted yet.
abbrev Tallied : ℕ → World → Plan → Type 0
Tallied i w p =
    (settled p.acc ≡ 0)
    × (total_expected p.acc ≡ length p.queued)
    × ((j : ℕ) → i ≤ j → dict_get j p.acc.expected ≡ none)
    × Untouched w p.world

-- A label that is not queued counts for nothing.
set_label-Tallied :
    (i : ℕ) (state : LabelState) (w : World) (p : Plan)
    → Tallied i w p
    → Tallied (suc i) w (record p { acc = set_label i state p.acc })
unfolding settled total_expected
set_label-Tallied i state w p (none_settled, all_queued, fresh, same) =
    (none_settled, all_queued, λ j after. fresh j (omega arith), same)

-- Nor does one whose rendering raises.
raised-Tallied :
    (i : ℕ) (w : World) (p : Plan)
    → Tallied i w p
    → Tallied (suc i) w (record p { fault = some validation_error })
raised-Tallied i w p (none_settled, all_queued, fresh, same) =
    (none_settled, all_queued, λ j after. fresh j (omega arith), same)

new_key : (i j : ℕ) → suc i ≤ j → (i == j) ≡ false
new_key i j h = ground arith

module _ (env : Env) where
  note_dedupe-Untouched :
      (d : Option String) (id : String) (w v : World)
      → Untouched w v
      → Untouched w (note_dedupe env d id v)
  unfolding record_dedupe
  note_dedupe-Untouched none id w v same = same
  note_dedupe-Untouched (some key) id w v same = record {
    jobs_same = same.jobs_same;
    acc_same = same.acc_same;
    coalescer_same = same.coalescer_same;
  }

  queue_label-Tallied :
      (i : ℕ) (l : LabelSpec) (d : Option String) (image : Image) (w : World) (p : Plan)
      → Tallied i w p
      → Tallied (suc i) w (queue_label env i l d (drawn image) p)
  unfolding settled total_expected
  queue_label-Tallied i l d image w p (none_settled, all_queued, fresh, same) =
      let counted = sum_values-dict_set i l.copies p.acc.expected in
      let uncounted : count_of i p.acc.expected ≡ 0 = ap or_zero (fresh i (omega arith)) in
      (
        none_settled,
        omega (
          arith,
          counted,
          uncounted,
          all_queued,
          length-append p.queued (replicate l.copies (i, image)),
          length-replicate l.copies (i, image),
        ),
        λ j after.
            dict_get-dict_set i j l.copies p.acc.expected
            ∙ rw (new_key i j after) (fresh j (omega arith)),
        note_dedupe-Untouched d p.acc.job.job_id w p.world same,
      )

  plan_unprinted-Tallied :
      (i : ℕ) (l : LabelSpec) (d : Option String) (w : World) (p : Plan)
      → Tallied i w p
      → Tallied (suc i) w (plan_unprinted env i l d p)
  plan_unprinted-Tallied i l d w p t = elim (Bool-cases (is_duplicate d p.world.spool)) [
    | inl dup ↦ rw dup (set_label-Tallied i skipped_duplicate w p t)
    | inr new ↦ rw new (rendered (env.render l (loaded_tape env)))
  ]
    where
      rendered : (o : Rendering) → Tallied (suc i) w (queue_label env i l d o p)
      rendered unrenderable = set_label-Tallied i failed w p t
      rendered invalid = raised-Tallied i w p t
      rendered (drawn image) = queue_label-Tallied i l d image w p t

  -- The labels after the first, unless its rendering raised.
  planned-Tallied :
      (i : ℕ) (l : LabelSpec) (w : World) (p rest : Plan)
      → Tallied (suc i) w (plan_label env i l p)
      → (n : ℕ) × Tallied n w rest
      → let q = plan_label env i l p in
        (n : ℕ) × Tallied n w (elim q.fault as (λ x. Plan) [ none ↦ rest | some e ↦ q ])
  planned-Tallied i l w p rest t all = elim (Option-cases (plan_label env i l p).fault) [
    | inl goes_on ↦ rw goes_on all
    | inr (e, raised) ↦ rw raised (suc i, t)
  ]

  plan_label-Tallied :
      (i : ℕ) (l : LabelSpec) (w : World) (p : Plan)
      → Tallied i w p
      → Tallied (suc i) w (plan_label env i l p)
  unfolding plan_label
  plan_label-Tallied i l w p t =
      elim (Bool-cases (label_is_printed p.acc.job.job_id i p.world.spool.printed_rows)) [
        | inl done ↦ rw done (set_label-Tallied i printed w p t)
        | inr fresh ↦ rw fresh (plan_unprinted-Tallied i l _ w p t)
      ]

  plan_labels-Tallied :
      (i : ℕ) (ls : List LabelSpec) (w : World) (p : Plan)
      → Tallied i w p
      → (n : ℕ) × Tallied n w (plan_labels env i ls p)
  unfolding plan_labels
  plan_labels-Tallied i [] w p t = (i, t)
  plan_labels-Tallied i (l ∷ ls) w p t =
      let q = plan_label env i l p in
      let next = plan_label-Tallied i l w p t in
      planned-Tallied i l w p (plan_labels env (suc i) ls q) next
        (plan_labels-Tallied (suc i) ls w q next)

  -- The plan of a job counts each copy that is queued.
  plan_of-Tallied :
      (job : PrintJob) (w : World)
      → (n : ℕ) × Tallied n (mark_printing env job.job_id w) (plan_of env job w)
  unfolding settled total_expected sum_values dict_get
  plan_of-Tallied job w =
      plan_labels-Tallied 0 job.labels (mark_printing env job.job_id w)
        (record {
          acc = new_acc job;
          queued = [];
          world = mark_printing env job.job_id w;
          fault = none;
        })
        (
          refl,
          refl,
          λ j after. refl,
          record { jobs_same = refl; acc_same = refl; coalescer_same = refl },
        )

  row_state-mark :
      (id : String) (now : ℕ) (rs : List JobRow) (job : PrintJob)
      → payload_of (find_job id rs) ≡ some job
      → row_state
          (find_job id (update_rows id (λ r. record r { state = printing; updated_at = now }) rs))
        ≡ some printing
  unfolding find_job update_rows
  row_state-mark id now [] job known = cc
  row_state-mark id now (r ∷ rs) job known = ground (arith, row_state-mark id now rs job)

  module _ (job : PrintJob) (k : String) (w : World) where
    -- Whatever way the labels are printed, the job leaves if it leaves with all of its queued copies settled.
    abbrev Leaves : List (ℕ × Image) → World → JobAcc → Type 0
    Leaves queued u a =
        dict_get job.job_id u.acc ≡ some a
        → settled a + length queued ≡ total_expected a
        → u.coalescer ≡ w.coalescer
        → HasLeft job.job_id k (row_state (find_job job.job_id u.spool.jobs)) u.acc
            (print_queued env job queued u)

    print_plan-HasLeft :
        (p : Plan) (u : World)
        → dict_get job.job_id u.acc ≡ some p.acc
        → p.fault ≡ none
        → settled p.acc ≡ 0
        → total_expected p.acc ≡ length p.queued
        → u.coalescer ≡ w.coalescer
        → ((v : World) (a : JobAcc) → Leaves p.queued v a)
        → HasLeft job.job_id k
            (row_state (find_job job.job_id u.spool.jobs))
            u.acc
            (print_plan env job p u)
    print_plan-HasLeft p u found quiet none_settled all_queued same prints =
        elim (Bool-cases (total_expected p.acc == 0)) [
          | inl nothing ↦ rw (quiet, nothing) (finalize-HasLeft env job.job_id k u p.acc found)
          | inr some_left ↦ rw (quiet, some_left) (prints u p.acc found (omega arith) same)
        ]

    run_job-HasLeft :
        (plan_of env job w).fault ≡ none
        → ((v : World) (a : JobAcc) → Leaves (plan_of env job w).queued v a)
        → HasLeft job.job_id k
            (row_state (find_job job.job_id (mark_printing env job.job_id w).spool.jobs))
            w.acc
            (run_job env job w)
    unfolding mark
    run_job-HasLeft quiet prints =
        let p = plan_of env job w in
        let (n, (none_settled, all_queued, fresh, same)) = plan_of-Tallied job w in
        let u = set_acc job.job_id p.acc p.world in
        let found : dict_get job.job_id u.acc ≡ some p.acc =
          dict_get-dict_set job.job_id job.job_id p.acc p.world.acc
          ∙ rw (beq_self job.job_id) refl in
        HasLeft-step job.job_id k (mark_printing env job.job_id w) u (run_job env job w)
          same.jobs_same
          (λ other.
            dict_get-dict_set job.job_id k p.acc p.world.acc
            ∙ rw other (ap (dict_get k) same.acc_same))
          (print_plan-HasLeft p u found quiet none_settled all_queued same.coalescer_same prints)

    loaded_submit :
        (v : World)
        → load job.job_id v.spool ≡ some job
        → submit env job.job_id v ≡ accept_job env job v
    unfolding submit
    loaded_submit v loaded = ground (arith, loaded)

    pub submit-HasLeft :
        load job.job_id w.spool ≡ some job
        → other_model job.require_model ≡ false
        → (plan_of env job w).fault ≡ none
        → ((v : World) (a : JobAcc) → Leaves (plan_of env job w).queued v a)
        → HasLeft job.job_id k (some printing) w.acc (submit env job.job_id w)
    unfolding mark load
    submit-HasLeft loaded mine quiet prints =
        let ran : submit env job.job_id w ≡ run_job env job w =
          loaded_submit w loaded ∙ rw mine refl in
        subst (HasLeft job.job_id k (some printing) w.acc) (sym ran) (
          subst (λ before. HasLeft job.job_id k before w.acc (run_job env job w))
            (row_state-mark job.job_id (env.clock w.reads) w.spool.jobs job loaded)
            (run_job-HasLeft quiet prints))
