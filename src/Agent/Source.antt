-- ===== src/Agent/Source.antt =====
-- src/labelfab/agent/source_mqtt.py: `_on_message` and `_handle_cmd`, from a delivery to the spool,
-- the print queue and the acknowledgement.
-- The two sentinels of the queue are constructors: a job id that spells one is not considered.
pub mod Delivery
pub mod Status
use labelfab.Common.{ℕ, suc, Bool, true, false, List, [], ◌∷◌, ◌++◌, Option, none, some, String}
use labelfab.Contract.{PrintJob, JobResult, JobState, completed, rejected}
use labelfab.Agent.Spool.{Spool, InsertResult, new_job, duplicate_job, try_insert, purge_dedupe}

-- A command, as whether its text has `flush` in it and whether it has `probe` or `status`; a payload
-- that does not validate; or a job.
pub data Message : Type 0 where
  command : Bool → Bool → Message
  malformed : Message
  job : PrintJob → Message

pub data Work : Type 0 where
  print_job : String → Work
  flush_command probe_command : Work

-- What the source writes to: the spool, the print queue, the results topic and the broker, as the
-- number of acknowledgements.
pub record Intake : Type 0 where
  pub spool : Spool
  pub queue : List Work
  pub results : List JobResult
  pub acks : ℕ

abbrev pub enqueue : Work → Intake → Intake
enqueue w s = record s { queue = s.queue ++ (w ∷ []) }

abbrev pub publish_result : JobResult → Intake → Intake
publish_result r s = record s { results = s.results ++ (r ∷ []) }

abbrev pub ack : Intake → Intake
ack s = record s { acks = suc s.acks }

-- `_handle_cmd`
unfoldable pub handle_cmd : Bool → Bool → Intake → Intake
handle_cmd true probe s = enqueue flush_command s
handle_cmd false true s = enqueue probe_command s
handle_cmd false false s = s

-- A result without labels.
abbrev pub bare_result : String → JobState → JobResult
bare_result id state = record {
  job_id = id;
  state = state;
  duplicate = false;
  partial_tape_consumed = false;
  labels = [];
}

-- `result.cached or JobResult(…, state="completed")`
abbrev pub cached_or : Option JobResult → String → JobResult
cached_or none id = bare_result id completed
cached_or (some r) id = r

-- What follows the insert; `none` is an exception of it.
unfoldable pub after_insert : PrintJob → Option (InsertResult × Spool) → Intake → Intake
after_insert j none s = s
after_insert j (some (new_job, t)) s = enqueue (print_job j.job_id) (ack (record s { spool = t }))
after_insert j (some (duplicate_job cached, t)) s = ack (
    publish_result (record (cached_or cached j.job_id) { duplicate = true })
      (record s { spool = t }))

-- `_on_message`, with the time to live of label keys and the reading of the clock.
unfoldable pub on_message : ℕ → ℕ → Message → Intake → Intake
unfolding handle_cmd after_insert
on_message ttl now (command has_flush has_probe) s = ack (handle_cmd has_flush has_probe s)
on_message ttl now malformed s = ack (publish_result (bare_result "unknown" rejected) s)
on_message ttl now (job j) s =
    let purged = purge_dedupe ttl now s.spool in
    after_insert j (try_insert j now purged) (record s { spool = purged })
