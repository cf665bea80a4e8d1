-- ===== src/Agent/Printing/Emptied.antt =====
-- `_flush` of src/labelfab/agent/worker.py: the strip is empty afterwards.
use labelfab.Common.{
  ◌≡◌, refl, ap, ◌∙◌, Bool, true, false, List, [], ◌∷◌, none, String, Result, ok, err, arith, ◌||◌,
  Bool-cases, inl, inr, Option-cases,
}
use labelfab.Device.Raster.{DeviceRaster}
use labelfab.Contract.{printing}
use labelfab.Agent.Coalescer.{Coalescer, PendingLabel, Batch, job_ids, images, width_or_zero}
use labelfab.Agent.Coalescer
use labelfab.Agent.World.{Env, World, Exc, M, ◌>>◌, change, publish_status}
use labelfab.Agent.Sending.{Send, send}
use labelfab.Agent.Sending.Retries.{send-frames}
use labelfab.Agent.Accounting.{
  get_acc, credit_copy, fail_copy, finalize, maybe_finalize, stall, stall_jobs,
}
use labelfab.Agent.Printing.{
  publish_settled, mark_partial, settle_labels, finalize_all, after_strip, send_strip, print_strip,
  flush,
}

-- However it ends, the waiting strip is as it was.
abbrev Steady : M (Unit {0}) → Type 0
Steady m = (w : World) → (m w).1.coalescer ≡ w.coalescer

>>-Steady : (m k : M (Unit {0})) → Steady m → Steady k → Steady (m >> k)
>>-Steady m k first next w = go (m w).0 (m w).1 (first w)
  where
    go :
        (r : Result Exc (Unit {0})) (v : World)
        → v.coalescer ≡ w.coalescer
        → (elim r as (λ x. Result Exc (Unit {0}) × World) [
          | ok a ↦ k v
          | err e ↦ (err e, v)
        ]).1.coalescer
          ≡ w.coalescer
    go (ok a) v same = next v ∙ same
    go (err e) v same = same

module _ (env : Env) where
  credit_copy-Steady : (id : String) (i : _) → Steady (credit_copy env id i)
  unfolding credit_copy get_acc
  credit_copy-Steady id i w = ground arith

  fail_copy-Steady : (id : String) (i : _) → Steady (fail_copy env id i)
  unfolding fail_copy get_acc
  fail_copy-Steady id i w = ground arith

  mark_partial-Steady : (id : String) → Steady (mark_partial env id)
  unfolding mark_partial get_acc
  mark_partial-Steady id w = ground arith

  maybe_finalize-Steady : (id : String) → Steady (maybe_finalize env id)
  unfolding maybe_finalize finalize get_acc
  maybe_finalize-Steady id w = ground arith

  settle_labels-Steady :
      (is_ok : Bool) (pls : List PendingLabel) → Steady (settle_labels env is_ok pls)
  unfolding settle_labels
  settle_labels-Steady is_ok [] w = refl
  settle_labels-Steady true (pl ∷ pls) w =
      >>-Steady (credit_copy env pl.job_id pl.label_index) (settle_labels env true pls)
        (credit_copy-Steady pl.job_id pl.label_index) (settle_labels-Steady true pls) w
  settle_labels-Steady false (pl ∷ pls) w =
      >>-Steady (fail_copy env pl.job_id pl.label_index >> mark_partial env pl.job_id)
        (settle_labels env false pls)
        (>>-Steady (fail_copy env pl.job_id pl.label_index) (mark_partial env pl.job_id)
          (fail_copy-Steady pl.job_id pl.label_index) (mark_partial-Steady pl.job_id))
        (settle_labels-Steady false pls) w

  finalize_all-Steady : (ids : List String) → Steady (finalize_all env ids)
  unfolding finalize_all
  finalize_all-Steady [] w = refl
  finalize_all-Steady (id ∷ ids) w =
      >>-Steady (maybe_finalize env id) (finalize_all env ids) (maybe_finalize-Steady id)
        (finalize_all-Steady ids) w

  stall_jobs-Steady :
      (now : _) (ids : List String) (w : World) → (stall_jobs env now ids w).coalescer ≡ w.coalescer
  unfolding stall_jobs
  stall_jobs-Steady now [] w = refl
  stall_jobs-Steady now (id ∷ ids) w = stall_jobs-Steady now ids _

  after_strip-Steady : (batch : Batch) (s : Send) → Steady (after_strip env batch s)
  unfolding after_strip publish_settled publish_status stall
  after_strip-Steady batch s w = elim (Bool-cases (s.is_ok || s.wrote)) [
    | inl moved ↦ rw moved (
        >>-Steady (settle_labels env s.is_ok batch.labels)
          (finalize_all env (job_ids batch) >> change (publish_settled env))
          (settle_labels-Steady s.is_ok batch.labels)
          (>>-Steady (finalize_all env (job_ids batch)) (change (publish_settled env))
            (finalize_all-Steady (job_ids batch)) (λ v. refl))
          w)
    | inr unmoved ↦ rw unmoved (stall_jobs-Steady _ (job_ids batch) _)
  ]

  print_strip-Steady : (batch : Batch) → Steady (print_strip env batch)
  unfolding print_strip publish_status
  print_strip-Steady batch w = elim (Option-cases (env.strip_raster (images batch))) [
    | inl unmade ↦ rw unmade refl
    | inr (raster, made) ↦ rw made (sent raster)
  ]
    where
      sent : (raster : DeviceRaster) → (send_strip env batch raster w).1.coalescer ≡ w.coalescer
      sent raster =
          let before = publish_status env printing _ w in
          let (s, v) = send env raster true before in
          after_strip-Steady batch s v ∙ (send-frames env raster true before).4.coalescer_same

  -- However a flush ends, nothing waits in the strip.
  pub flush-empties : (w : World) → (flush env w).1.coalescer.pending ≡ []
  unfolding flush Coalescer.flush
  flush-empties w = go w.coalescer.pending refl
    where
      go :
          (pls : List PendingLabel)
          → w.coalescer.pending ≡ pls
          → (flush env w).1.coalescer.pending ≡ []
      go [] waiting = rw waiting refl
      go (pl ∷ pls) waiting =
          let batch : Batch = record {
            labels = pl ∷ pls;
            tape_width_mm = width_or_zero w.coalescer.width_mm;
          } in
          let c = record (w.coalescer) { pending = []; width_mm = none; last_add_at = none } in
          rw waiting (ap (λ x. x.pending) (print_strip-Steady batch (record w { coalescer = c })))
