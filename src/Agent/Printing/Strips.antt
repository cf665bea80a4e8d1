-- ===== src/Agent/Printing/Strips.antt =====
-- `_print_strip` of src/labelfab/agent/worker.py for a strip of one job.
use labelfab.Common.{
  Option-cases, none, ◌≢◌, ◌+◌, ◌≡◌, refl, sym, ◌∙◌, ap, subst, Bool, true, ◌||◌, List, [], ◌∷◌,
  some, String, string_eq, arith, dict_get, Bool-cases, inl, inr, length, beq_self, All,
}
use labelfab.Contract.{printing}
use labelfab.Device.Raster.{DeviceRaster}
use labelfab.Agent.Printing.{send_strip}
use labelfab.Agent.Coalescer.{PendingLabel, Batch, job_ids, jobs_from, add_job, images}
use labelfab.Agent.Spool.{find_job}
use labelfab.Agent.World.{JobAcc, Env, World, ◌>>◌, pass, change, publish_status}
use labelfab.Agent.Sending.{Send, send}
use labelfab.Agent.Sending.Retries.{send-frames}
use labelfab.Agent.Accounting.{settled, total_expected, is_complete, maybe_finalize}
use labelfab.Agent.Accounting.Stalls.{row_state}
use labelfab.Agent.Printing.{
  settle_labels, settle_strip, finalize_all, after_strip, print_strip, publish_settled,
}
use labelfab.Agent.Printing.Credits.{>>-ok}
use labelfab.Agent.Printing.Endings.{
  HasLeft, HasLeft-step, maybe_finalize_complete, end-HasLeft, stall-HasLeft,
}
use labelfab.Agent.Printing.Tallies.{settle_labels-Settles}

pub jobs_from-one :
    (id : String) (pls : List PendingLabel)
    → All (λ pl. pl.job_id ≡ id) pls
    → jobs_from (id ∷ []) pls ≡ id ∷ []
unfolding jobs_from add_job
jobs_from-one id [] h = refl
jobs_from-one id (pl ∷ pls) (mine, all) = rw (mine, beq_self id) (jobs_from-one id pls all)

module _ (env : Env) (id k : String) where
  -- The job of the strip is the only one to finish.
  finish-HasLeft :
      (w : World) (a : JobAcc)
      → dict_get id w.acc ≡ some a
      → is_complete a ≡ true
      → HasLeft id k
          (row_state (find_job id w.spool.jobs))
          w.acc
          ((finalize_all env (id ∷ []) >> change (publish_settled env)) w)
  unfolding finalize_all
  finish-HasLeft w a found complete =
      let finalized = maybe_finalize_complete env id k w a found complete in
      let step = maybe_finalize env id in
      let publishes = change (publish_settled env) in
      let returned = ap (λ x. x.0) finalized in
      let once = >>-ok step pass w returned in
      let all =
        >>-ok (finalize_all env (id ∷ [])) publishes w (ap (λ x. x.0) once)
        ∙ ap (λ x. publishes x.1) once in
      subst (HasLeft id k (row_state (find_job id w.spool.jobs)) w.acc)
        (>>-ok step publishes w returned ∙ sym all) (end-HasLeft env id k w a found complete)

  settle_strip-HasLeft :
      (is_ok : Bool) (batch : Batch) (w : World) (a : JobAcc)
      → All (λ pl. pl.job_id ≡ id) batch.labels
      → job_ids batch ≡ id ∷ []
      → dict_get id w.acc ≡ some a
      → settled a + length batch.labels ≡ total_expected a
      → HasLeft id k (row_state (find_job id w.spool.jobs)) w.acc (settle_strip env is_ok batch w)
  unfolding is_complete
  settle_strip-HasLeft is_ok batch w a mine one found all =
      let settles = settle_labels env is_ok batch.labels in
      let rest = finalize_all env (job_ids batch) >> change (publish_settled env) in
      let (returned, b, after) = settle_labels-Settles env id k is_ok batch.labels w a mine found in
      let u = (settles w).1 in
      let left : HasLeft id k (row_state (find_job id u.spool.jobs)) u.acc (rest u) =
        subst
          (λ ids.
            HasLeft id k (row_state (find_job id u.spool.jobs)) u.acc
              ((finalize_all env ids >> change (publish_settled env)) u))
          (sym one) (finish-HasLeft u b after.found (ground (arith, after.more, after.total))) in
      subst (HasLeft id k (row_state (find_job id w.spool.jobs)) w.acc)
        (sym (>>-ok settles rest w returned))
        (HasLeft-step id k w u (rest u) after.jobs_same after.others left)

  after_strip-HasLeft :
      (batch : Batch) (s : Send) (w : World) (a : JobAcc)
      → All (λ pl. pl.job_id ≡ id) batch.labels
      → job_ids batch ≡ id ∷ []
      → dict_get id w.acc ≡ some a
      → settled a + length batch.labels ≡ total_expected a
      → HasLeft id k (row_state (find_job id w.spool.jobs)) w.acc (after_strip env batch s w)
  unfolding after_strip
  after_strip-HasLeft batch s w a mine one found all = elim (Bool-cases (s.is_ok || s.wrote)) [
    | inl moved ↦ rw moved (settle_strip-HasLeft s.is_ok batch w a mine one found all)
    | inr unmoved ↦ rw (unmoved, one) (stall-HasLeft env id k w)
  ]

  send_strip-HasLeft :
      (batch : Batch) (raster : DeviceRaster) (w : World) (a : JobAcc)
      → All (λ pl. pl.job_id ≡ id) batch.labels
      → job_ids batch ≡ id ∷ []
      → dict_get id w.acc ≡ some a
      → settled a + length batch.labels ≡ total_expected a
      → HasLeft id k (row_state (find_job id w.spool.jobs)) w.acc (send_strip env batch raster w)
  unfolding publish_status
  send_strip-HasLeft batch raster w a mine one found all =
      let before = publish_status env printing (length batch.labels) w in
      let (s, v) = send env raster true before in
      let quiet = (send-frames env raster true before).4 in
      let same : v.acc ≡ w.acc = quiet.acc_same in
      HasLeft-step id k w v (after_strip env batch s v) quiet.jobs_same (λ _. ap (dict_get k) same)
        (after_strip-HasLeft batch s v a mine one (ap (dict_get id) same ∙ found) all)

  -- A strip of one job, whose labels are all the copies that are left, takes the job out of flight if
  -- its raster can be made.
  pub print_strip-HasLeft :
      (batch : Batch) (w : World) (a : JobAcc)
      → All (λ pl. pl.job_id ≡ id) batch.labels
      → job_ids batch ≡ id ∷ []
      → dict_get id w.acc ≡ some a
      → settled a + length batch.labels ≡ total_expected a
      → env.strip_raster (images batch) ≢ none
      → HasLeft id k (row_state (find_job id w.spool.jobs)) w.acc (print_strip env batch w)
  unfolding print_strip
  print_strip-HasLeft batch w a mine one found all made =
      elim (Option-cases (env.strip_raster (images batch))) [
        | inl unmade ↦ absurd (made unmade)
        | inr (raster, drawn) ↦ rw drawn (send_strip-HasLeft batch raster w a mine one found all)
      ]
