-- ===== src/Agent/Accounting/Stalls.antt =====
-- `_stall` of src/labelfab/agent/worker.py.
use labelfab.Common.{
  ℕ, suc, ◌≡◌, refl, Bool, false, ◌||◌, List, [], ◌∷◌, ◌++◌, Option, none, some, String, string_eq,
  arith, if◌then◌else◌, dict_get, dict_get-dict_set, dict_get-dict_pop,
}
use labelfab.Contract.{disconnected}
use labelfab.Agent.Snapshot.{to_status}
use labelfab.Agent.Spool.{JobRow, RowState, queued, find_job, update_rows, mark, requeue}
use labelfab.Agent.World.{Env, World, status, publish_status}
use labelfab.Agent.Accounting.{stall_job, stall_jobs, stall}

abbrev pub contains : String → List String → Bool
contains id [] = false
contains id (k ∷ ks) = string_eq.beq k id || contains id ks

abbrev pub row_state : Option JobRow → Option RowState
row_state none = none
row_state (some r) = some r.state

-- The state of a row after a requeue, if there is a row.
abbrev pub requeued : Option RowState → Option RowState
requeued none = none
requeued (some s) = some queued

row_state-update_rows :
    (k id : String) (now : ℕ) (rs : List JobRow)
    → row_state
        (find_job id (update_rows k (λ r. record r { state = queued; updated_at = now }) rs))
      ≡ (if string_eq.beq k id
          then requeued (row_state (find_job id rs))
          else row_state (find_job id rs))
unfolding find_job update_rows
row_state-update_rows k id now [] = ground arith
row_state-update_rows k id now (r ∷ rs) = ground (
  arith,
  string_eq.beq_iff r.job_id k,
  string_eq.beq_iff r.job_id id,
  string_eq.beq_iff k id,
  row_state-update_rows k id now rs,
)

module _ (env : Env) where
  -- The three places that know of a job.
  abbrev Returned : ℕ → List String → String → World → World → Type 0
  Returned now ids id w v =
      (dict_get id v.acc ≡ (if contains id ids then none else dict_get id w.acc))
      × (dict_get id v.stalled ≡ (if contains id ids then some now else dict_get id w.stalled))
      × (row_state (find_job id v.spool.jobs) ≡ (
          if contains id ids
          then requeued (row_state (find_job id w.spool.jobs))
          else row_state (find_job id w.spool.jobs)))

  stall_job-Returned :
      (now : ℕ) (k id : String) (w : World) → Returned now (k ∷ []) id w (stall_job env now k w)
  unfolding stall_job requeue mark
  stall_job-Returned now k id w = ground (
    arith,
    dict_get-dict_pop k id w.acc,
    dict_get-dict_set k id now w.stalled,
    row_state-update_rows k id (env.clock w.reads) w.spool.jobs,
  )

  stall_jobs-Returned :
      (now : ℕ) (ids : List String) (id : String) (w : World)
      → Returned now ids id w (stall_jobs env now ids w)
  unfolding stall_jobs
  stall_jobs-Returned now [] id w = (refl, refl, refl)
  stall_jobs-Returned now (k ∷ ks) id w =
      ground (
        arith,
        stall_job-Returned now k id w,
        stall_jobs-Returned now ks id (stall_job env now k w),
      )

  stall_jobs-events :
      (now : ℕ) (ids : List String) (w : World)
      → ((stall_jobs env now ids w).events ≡ w.events)
        × ((stall_jobs env now ids w).device ≡ w.device)
        × ((stall_jobs env now ids w).spool.printed_rows ≡ w.spool.printed_rows)
        × ((stall_jobs env now ids w).printed ≡ w.printed)
  unfolding stall_jobs stall_job requeue mark
  stall_jobs-events now [] w = (refl, refl, refl, refl)
  stall_jobs-events now (k ∷ ks) w = stall_jobs-events now ks (stall_job env now k w)

-- A stalled job leaves the accumulators, its row if any is queued again, and it is noted as stalled
-- at the reading of the clock; every other job is untouched. No label counts as printed, and the
-- only message is the status disconnected, with no result.
pub stall-returns :
    (env : Env) (ids : List String) (id : String) (w : World)
    → let v = stall env ids w in
      (dict_get id v.acc ≡ (if contains id ids then none else dict_get id w.acc))
      × (dict_get id v.stalled
          ≡ (if contains id ids then some (env.clock w.reads) else dict_get id w.stalled))
      × (row_state (find_job id v.spool.jobs) ≡ (
          if contains id ids
          then requeued (row_state (find_job id w.spool.jobs))
          else row_state (find_job id w.spool.jobs)))
      × (v.spool.printed_rows ≡ w.spool.printed_rows)
      × (v.printed ≡ w.printed)
      × (v.events
          ≡ w.events
            ++ (status (
                  to_status w.device env.config.printer_id disconnected
                    (some env.config.tape.width_mm)
                    0)
                ∷ []))
unfolding stall publish_status
stall-returns env ids id w =
    let u : World = record w { reads = suc w.reads } in
    let (acc, stalled, row) = stall_jobs-Returned env (env.clock w.reads) ids id u in
    let (events, device, rows, printed) = stall_jobs-events env (env.clock w.reads) ids u in
    (acc, stalled, row, rows, printed, rw (events, device) refl)
