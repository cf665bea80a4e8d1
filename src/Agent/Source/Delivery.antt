-- ===== src/Agent/Source/Delivery.antt =====
-- `_on_message` of src/labelfab/agent/source_mqtt.py, on a job.
use labelfab.Common.{ℕ, suc, ◌≡◌, ◌≢◌, ◌⊎◌, true, [], ◌∷◌, ◌++◌, none, some, string_eq, arith}
use labelfab.Contract.{PrintJob}
use labelfab.Agent.Spool.{JobRow, find_key, find_job, new_row, try_insert, purge_dedupe}
use labelfab.Agent.Source.{job, print_job, Intake, cached_or, after_insert, on_message}

-- The job was new: its row is put last, and it is queued for printing.
abbrev pub WasNew : PrintJob → ℕ → Intake → Intake → Type 0
WasNew j now s t =
    (find_key j.idempotency_key s.spool.jobs ≡ none)
    × (t.spool.jobs ≡ s.spool.jobs ++ (new_row j now ∷ []))
    × (t.queue ≡ s.queue ++ (print_job j.job_id ∷ []))
    × (t.results ≡ s.results)
    × (t.acks ≡ suc s.acks)

-- The key was known: a result is published again, marked as a duplicate.
abbrev pub WasKnown : PrintJob → Intake → Intake → Type 0
WasKnown j s t =
    (r : JobRow) × (find_key j.idempotency_key s.spool.jobs ≡ some r)
    × (t.spool.jobs ≡ s.spool.jobs)
    × (t.queue ≡ s.queue)
    × (t.results ≡ s.results ++ (record (cached_or r.result j.job_id) { duplicate = true } ∷ []))
    × (t.acks ≡ suc s.acks)

-- The key was new but the job id was taken: nothing is acknowledged, queued or published.
abbrev pub WasRefused : PrintJob → Intake → Intake → Type 0
WasRefused j s t =
    (find_key j.idempotency_key s.spool.jobs ≡ none)
    × (find_job j.job_id s.spool.jobs ≢ none)
    × (t.spool.jobs ≡ s.spool.jobs)
    × (t.queue ≡ s.queue)
    × (t.results ≡ s.results)
    × (t.acks ≡ s.acks)

-- The delivery of a job has one of three outcomes. Its key is new: its row is spooled, the delivery
-- is acknowledged and the job is queued for printing, once. Its key is known: the delivery is
-- acknowledged and a result marked as a duplicate is published, and nothing is queued. Its key is new
-- but its job id is taken: nothing is spooled, acknowledged, queued or published.
pub on_message-cases :
    (ttl now : ℕ) (j : PrintJob) (s : Intake)
    → let t = on_message ttl now (job j) s in WasNew j now s t ⊎ (WasKnown j s t ⊎ WasRefused j s t)
unfolding on_message after_insert try_insert purge_dedupe
on_message-cases ttl now j s = ground arith
