-- ===== src/Agent/Printing.antt =====
-- src/labelfab/agent/worker.py: `_flush`, `_print_strip` and `_run_discrete`.
pub mod Credits
pub mod Endings
pub mod Discrete
pub mod Tallies
pub mod Strips
pub mod Emptied
use labelfab.Common.{
  ℕ, Bool, true, false, ◌||◌, if◌then◌else◌, List, [], ◌∷◌, Option, none, some, String, string_eq,
  length, ok,
}
use labelfab.Contract.{printing}
use labelfab.Device.Raster.{DeviceRaster}
use labelfab.Agent.Snapshot.{settled_state}
use labelfab.Agent.Coalescer.{Image, PendingLabel, Batch, job_ids, images}
use labelfab.Agent.Coalescer
use labelfab.Agent.World.{
  Env, World, value_error, raise, M, ◌>>=◌, ◌>>◌, pass, change, publish_status,
}
use labelfab.Agent.Sending.{Send, send}
use labelfab.Agent.Accounting.{set_acc, get_acc, maybe_finalize, credit_copy, fail_copy, stall}

module _ (env : Env) where
  unfoldable pub publish_settled : World → World
  publish_settled w = publish_status env (settled_state w.device) 0 w

  -- `self._acc[pl.job_id].partial_tape = True`
  unfoldable pub mark_partial : String → M (Unit {0})
  unfolding get_acc
  mark_partial id = do a ← get_acc id; change (set_acc id (record a { partial_tape = true }))

  abbrev pub settle_label : Bool → PendingLabel → M (Unit {0})
  settle_label true pl = credit_copy env pl.job_id pl.label_index
  settle_label false pl = do fail_copy env pl.job_id pl.label_index; mark_partial pl.job_id

  -- `for pl in batch.labels: …`
  unfoldable pub settle_labels : Bool → List PendingLabel → M (Unit {0})
  settle_labels is_ok [] = pass
  settle_labels is_ok (pl ∷ pls) = do settle_label is_ok pl; settle_labels is_ok pls

  -- `for job_id in batch.job_ids: self._maybe_finalize(job_id)`
  unfoldable pub finalize_all : List String → M (Unit {0})
  finalize_all [] = pass
  finalize_all (id ∷ ids) = do maybe_finalize env id; finalize_all ids

  abbrev pub settle_strip : Bool → Batch → M (Unit {0})
  settle_strip is_ok batch = do
    settle_labels is_ok batch.labels
    finalize_all (job_ids batch)
    change publish_settled

  -- What follows the send of a strip: with nothing written the jobs return to the queue.
  unfoldable pub after_strip : Batch → Send → M (Unit {0})
  unfolding settle_labels finalize_all publish_settled
  after_strip batch s =
      if s.is_ok || s.wrote then settle_strip s.is_ok batch else change (stall env (job_ids batch))

  -- What follows the making of a raster, which may raise.
  abbrev pub with_raster : Option DeviceRaster → (DeviceRaster → M (Unit {0})) → M (Unit {0})
  with_raster none k = raise value_error
  with_raster (some raster) k = k raster

  abbrev pub send_strip : Batch → DeviceRaster → M (Unit {0})
  send_strip batch raster w =
      let (s, v) = send env raster true (publish_status env printing (length batch.labels) w) in
      after_strip batch s v

  unfoldable pub print_strip : Batch → M (Unit {0})
  unfolding after_strip
  print_strip batch = with_raster (env.strip_raster (images batch)) (send_strip batch)

  abbrev pub print_batch : Option Batch → M (Unit {0})
  print_batch none = pass
  print_batch (some batch) = print_strip batch

  -- `_flush`
  unfoldable pub flush : M (Unit {0})
  unfolding print_strip
  flush w = let (b, c) = Coalescer.flush w.coalescer in print_batch b (record w { coalescer = c })

  -- One label of `_run_discrete`, and `rest`, the labels after it.
  abbrev pub send_label : String → ℕ → M (Unit {0}) → DeviceRaster → M (Unit {0})
  send_label id i rest raster w =
      let (s, v) = send env raster false (publish_status env printing 1 w) in
      elim s.is_ok [
        | true ↦ (credit_copy env id i >> rest) v
        | false ↦ elim s.wrote [
          | false ↦ (ok tt, stall env (id ∷ []) v)
          | true ↦ (fail_copy env id i >> rest) v
        ]
      ]

  -- `_run_discrete`: the labels that are left to print
  unfoldable pub run_discrete : String → List (ℕ × Image) → M (Unit {0})
  unfolding publish_settled
  run_discrete id [] = do maybe_finalize env id; change publish_settled
  run_discrete id ((i, image) ∷ queued) =
      let rest = run_discrete id queued in
      with_raster (env.label_raster image) (send_label id i rest)
