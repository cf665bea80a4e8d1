-- ===== src/Agent/Submit/Outcomes.antt =====
-- `submit` of src/labelfab/agent/worker.py: how a submitted job ends.
use labelfab.Common.{
  ◌≢◌, ℕ, ◌+◌, ◌≡◌, refl, ◌∙◌, ap, subst, sym, true, false, List, [], ◌∷◌, ◌++◌, Option, none, some,
  String, string_eq, nat_eq, arith, inl, inr, dict_get, length, ok, ◌⊎◌, map,
}
use labelfab.Contract.{PrintJob}
use labelfab.Agent.Coalescer.{Image, Coalescer}
use labelfab.Agent.Spool.{find_job, load, RowState, printing}
use labelfab.Agent.World.{JobAcc, Env, World}
use labelfab.Agent.Accounting.{settled, total_expected, finalize}
use labelfab.Agent.Accounting.Stalls.{row_state}
use labelfab.Agent.Coalescer
use labelfab.Agent.Printing.Credits.{>>-ok}
use labelfab.Agent.Printing.{flush, run_discrete}
use labelfab.Agent.Printing.Endings.{HasLeft, HasLeft-step, finalize-HasLeft, IsDone, IsReturned}
use labelfab.Agent.Printing.Discrete.{run_discrete-HasLeft}
use labelfab.Agent.Submit.{loaded_tape, plan_of, print_queued, submit, other_model, is_discrete_job}
use labelfab.Agent.Submit.Ends.{submit-HasLeft}
use labelfab.Agent.Submit.Strips.{pending_of, joined, add_labels-Added}
use labelfab.Agent.Printing.Strips.{jobs_from-one, print_strip-HasLeft}
use labelfab.Common.{All, Dict, length-map, ◌||◌}
use labelfab.Agent.Printing.{print_strip}
use labelfab.Agent.Accounting.{maybe_finalize, finalize_if, is_complete}
use labelfab.Agent.Printing.Endings.{finalize-HasLeft}
use labelfab.Agent.Submit.{add_labels, flush_if, as_strip, loaded_tape}
use labelfab.Agent.World.{M, ◌>>◌}
use labelfab.Agent.Coalescer.{
  PendingLabel, Batch, images, job_ids, jobs_from, add_job, width_or_zero, accepts, is_full,
}

pending-All :
    (id : String) (queued : List (ℕ × Image))
    → All (λ pl. pl.job_id ≡ id) (map (pending_of id) queued)
pending-All id [] = tt
pending-All id ((i, image) ∷ queued) = (refl, pending-All id queued)

-- The batch of a strip that has a label.
abbrev strip_of : String → ℕ × Image → List (ℕ × Image) → Option ℕ → Batch
strip_of id q queued width = record {
  labels = map (pending_of id) (q ∷ queued);
  tape_width_mm = width_or_zero width;
}

strip_of-job_ids :
    (id : String) (q : ℕ × Image) (queued : List (ℕ × Image)) (width : Option ℕ)
    → job_ids (strip_of id q queued width) ≡ id ∷ []
unfolding job_ids jobs_from add_job
strip_of-job_ids id (i, image) queued width =
    jobs_from-one id (map (pending_of id) queued) (pending-All id queued)

images-pending :
    (id : String) (queued : List (ℕ × Image))
    → map (λ (l : PendingLabel). l.image) (map (pending_of id) queued) ≡ map (λ q. q.1) queued
images-pending id [] = refl
images-pending id (q ∷ queued) = ap (λ is. q.1 ∷ is) (images-pending id queued)

images-strip_of :
    (id : String) (q : ℕ × Image) (queued : List (ℕ × Image)) (width : Option ℕ)
    → images (strip_of id q queued width) ≡ map (λ p. p.1) (q ∷ queued)
images-strip_of id q queued width = images-pending id (q ∷ queued)

-- The raster of the strip with these labels can be made; no strip is made without labels.
abbrev pub IsJoinable : Env → List (ℕ × Image) → Type 0
IsJoinable env [] = Unit {0}
IsJoinable env (q ∷ queued) = env.strip_raster (map (λ p. p.1) (q ∷ queued)) ≢ none

module _ (env : Env) where
  flush-none : (w : World) → w.coalescer.pending ≡ [] → flush env w ≡ (ok tt, w)
  unfolding flush Coalescer.flush
  flush-none w nothing = rw nothing refl

  print_discrete-HasLeft :
      (job : PrintJob) (k : String) (queued : List (ℕ × Image)) (u : World) (a : JobAcc)
      → is_discrete_job env job ≡ true
      → u.coalescer.pending ≡ []
      → dict_get job.job_id u.acc ≡ some a
      → settled a + length queued ≡ total_expected a
      → All (λ q. env.label_raster q.1 ≢ none) queued
      → HasLeft job.job_id k
          (row_state (find_job job.job_id u.spool.jobs))
          u.acc
          (print_queued env job queued u)
  print_discrete-HasLeft job k queued u a discrete nothing found all made =
      let run = run_discrete env job.job_id queued in
      let flushed = flush-none u nothing in
      rw discrete (
        subst (HasLeft job.job_id k (row_state (find_job job.job_id u.spool.jobs)) u.acc)
          (sym (>>-ok (flush env) run u (ap (λ x. x.0) flushed) ∙ ap (λ x. run x.1) flushed))
          (run_discrete-HasLeft env job.job_id k queued u a found all made))

  abbrev emptied : Coalescer → Coalescer
  emptied c = record c { pending = []; width_mm = none; last_add_at = none }

  flush-some :
      (id : String) (q : ℕ × Image) (queued : List (ℕ × Image)) (w : World)
      → w.coalescer.pending ≡ map (pending_of id) (q ∷ queued)
      → flush env w
        ≡ print_strip env
            (strip_of id q queued w.coalescer.width_mm)
            (record w { coalescer = emptied w.coalescer })
  unfolding flush Coalescer.flush
  flush-some id q queued w waiting = rw waiting refl

  -- A job that has left is not finalized again.
  HasLeft-settled :
      (id k : String) (before : Option RowState) (d : Dict String JobAcc) (m : M (Unit {0}))
      (w : World)
      → HasLeft id k before d (m w)
      → HasLeft id k before d ((m >> maybe_finalize env id) w)
  unfolding maybe_finalize
  HasLeft-settled id k before d m w (returned, gone, others, left) =
      let rest = maybe_finalize env id in
      let quiet = >>-ok m rest w returned ∙ ap (λ o. finalize_if env o id (m w).1) gone in
      subst (HasLeft id k before d) (sym quiet) (refl, gone, others, left)

  module _ (id k : String) (a : JobAcc) where
    -- The strip has the labels of this job only, and all the copies that are left.
    flushed-HasLeft :
        (queued : List (ℕ × Image)) (w : World)
        → w.coalescer.pending ≡ map (pending_of id) queued
        → dict_get id w.acc ≡ some a
        → settled a + length queued ≡ total_expected a
        → IsJoinable env queued
        → HasLeft id k
            (row_state (find_job id w.spool.jobs))
            w.acc
            ((flush env >> maybe_finalize env id) w)
    unfolding maybe_finalize is_complete
    flushed-HasLeft [] w waiting found all made =
        let flushed = flush-none w waiting in
        let complete : finalize_if env (some a) id w ≡ finalize env id w = ground (arith, all) in
        subst (HasLeft id k (row_state (find_job id w.spool.jobs)) w.acc)
          (sym (
            >>-ok (flush env) (maybe_finalize env id) w (ap (λ x. x.0) flushed)
            ∙ ap (λ x. maybe_finalize env id x.1) flushed
            ∙ ap (λ o. finalize_if env o id w) found
            ∙ complete))
          (finalize-HasLeft env id k w a found)
    flushed-HasLeft (q ∷ queued) w waiting found all made =
        let batch = strip_of id q queued w.coalescer.width_mm in
        let u = record w { coalescer = emptied w.coalescer } in
        HasLeft-settled id k (row_state (find_job id w.spool.jobs)) w.acc (flush env) w (
          subst (HasLeft id k (row_state (find_job id w.spool.jobs)) w.acc)
            (sym (flush-some id q queued w waiting))
            (print_strip-HasLeft env id k batch u a (pending-All id (q ∷ queued))
              (strip_of-job_ids id q queued w.coalescer.width_mm) found
              (omega (arith, length-map (pending_of id) (q ∷ queued), all))
              (subst (λ is. env.strip_raster is ≢ none)
                (sym (images-strip_of id q queued w.coalescer.width_mm)) made)))

  -- A job for the strip, which has room for all its labels and is flushed at once.
  print_waiting-HasLeft :
      (job : PrintJob) (k : String) (queued : List (ℕ × Image)) (u : World) (a : JobAcc)
      → is_discrete_job env job ≡ false
      → (job.options.flush || as_strip env job) ≡ true
      → u.coalescer.pending ≡ []
      → accepts u.coalescer (loaded_tape env).width_mm ≡ true
      → is_full (joined job.job_id u.coalescer queued) ≡ false
      → dict_get job.job_id u.acc ≡ some a
      → settled a + length queued ≡ total_expected a
      → IsJoinable env queued
      → HasLeft job.job_id k
          (row_state (find_job job.job_id u.spool.jobs))
          u.acc
          (print_queued env job queued u)
  print_waiting-HasLeft job k queued u a joins flushes nothing fits room found all made =
      let id = job.job_id in
      let adds = add_labels env id (loaded_tape env).width_mm queued in
      let ends = maybe_finalize env id in
      let rest = flush_if env (job.options.flush || as_strip env job) >> ends in
      let added = add_labels-Added env id (loaded_tape env).width_mm queued u fits room in
      let v = (adds u).1 in
      let whole : (adds >> rest) u ≡ (flush env >> ends) v =
        >>-ok adds rest u added.returned ∙ ap (λ b. (flush_if env b >> ends) v) flushes in
      let waiting : v.coalescer.pending ≡ map (pending_of id) queued =
        added.strip_longer ∙ ap (λ pls. pls ++ map (pending_of id) queued) nothing in
      rw joins (
        subst (HasLeft id k (row_state (find_job id u.spool.jobs)) u.acc) (sym whole) (
          HasLeft-step id k u v ((flush env >> ends) v) (ap (λ s. s.jobs) added.spool_same)
            (λ _. ap (dict_get k) added.acc_same)
            (flushed-HasLeft id k a queued v waiting (ap (dict_get id) added.acc_same ∙ found) all
              made)))

-- The job is printed label by label, or its labels fit into the strip, which is flushed at once; and the
-- rasters for that can be made.
abbrev pub PrintsAtOnce : Env → PrintJob → World → Type 0
PrintsAtOnce env job w =
    let queued = (plan_of env job w).queued in
    ((is_discrete_job env job ≡ true) × All (λ q. env.label_raster q.1 ≢ none) queued)
    ⊎ ((is_discrete_job env job ≡ false)
        × ((job.options.flush || as_strip env job) ≡ true)
        × (accepts w.coalescer (loaded_tape env).width_mm ≡ true)
        × (is_full (joined job.job_id w.coalescer queued) ≡ false)
        × IsJoinable env queued)

-- A job in the spool that this printer may print is submitted while nothing waits in the strip, and is
-- printed label by label or fits into one strip that is flushed at once. The rendering of its labels
-- raises nothing but `RenderError`, and the rasters that are printed can be made. Then, whichever
-- `D30Error` the printers raise, nothing is raised and the job is not in flight any more: either its row is finished
-- with a result that is published, followed by statuses only, or its row is queued again and the
-- last message is the status disconnected. Any other job in flight stays as it was.
pub submit-ends :
    (env : Env) (job : PrintJob) (k : String) (w : World)
    → load job.job_id w.spool ≡ some job
    → other_model job.require_model ≡ false
    → w.coalescer.pending ≡ []
    → (plan_of env job w).fault ≡ none
    → PrintsAtOnce env job w
    → let (r, v) = submit env job.job_id w in
      (r ≡ ok tt)
      × (dict_get job.job_id v.acc ≡ none)
      × (string_eq.beq job.job_id k ≡ false → dict_get k v.acc ≡ dict_get k w.acc)
      × (IsDone job.job_id (some printing) v ⊎ IsReturned job.job_id (some printing) v)
submit-ends env job k w loaded mine nothing quiet at_once =
    submit-HasLeft env job k w loaded mine quiet (prints at_once)
  where
    prints :
        PrintsAtOnce env job w
        → (v : World) (a : JobAcc) → dict_get job.job_id v.acc ≡ some a
        → settled a + length (plan_of env job w).queued ≡ total_expected a
        → v.coalescer ≡ w.coalescer
        → HasLeft job.job_id k
            (row_state (find_job job.job_id v.spool.jobs))
            v.acc
            (print_queued env job (plan_of env job w).queued v)
    prints (inl (discrete, made)) v a found all same =
        print_discrete-HasLeft env job k (plan_of env job w).queued v a discrete
          (ap (λ c. c.pending) same ∙ nothing) found all made
    prints (inr (joins, flushes, fits, room, made)) v a found all same =
        print_waiting-HasLeft env job k (plan_of env job w).queued v a joins flushes
          (ap (λ c. c.pending) same ∙ nothing)
          (ap (λ c. accepts c (loaded_tape env).width_mm) same ∙ fits)
          (ap (λ c. is_full (joined job.job_id c (plan_of env job w).queued)) same ∙ room) found all
          made
