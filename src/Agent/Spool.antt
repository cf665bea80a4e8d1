-- ===== src/Agent/Spool.antt =====
-- src/labelfab/agent/spool.py: the four tables and the statements that read and write them.
-- A payload column holds the value that was written: the JSON text and back is pydantic's. A method
-- that reads the clock takes the reading as an argument, in milliseconds.
pub mod Intake
pub mod Progress
pub mod Order
use labelfab.Common.{
  ℕ, ◌-◌, Bool, true, false, ◌&&◌, ◌||◌, not, List, [], ◌∷◌, ◌++◌, Option, none, some, String,
  string_eq, leb, ltb, ◌==◌, if◌then◌else◌, Result, ok, err, Dict, dict_get, dict_set,
}
use labelfab.Contract.{JobResult, JobState, PrintJob}
use labelfab.Agent.Snapshot.{DeviceSnapshot, no_snapshot}

-- The column `state`: `queued`, `printing`, or the state of a result.
pub data RowState : Type 0 where
  queued printing : RowState
  finished : JobState → RowState

pub record JobRow : Type 0 where
  pub job_id : String
  pub idempotency_key : String
  pub payload : PrintJob
  pub state : RowState
  pub result : Option JobResult
  pub created_at : ℕ
  pub updated_at : ℕ

pub record DedupeRow : Type 0 where
  pub job_id : String
  pub printed_at : ℕ

pub record PrintedRow : Type 0 where
  pub job_id : String
  pub label_index : ℕ
  pub printed_at : ℕ

-- The one row of `device_state`: a snapshot, or a text that no longer validates.
pub data StoredSnapshot : Type 0 where
  readable : DeviceSnapshot → StoredSnapshot
  unreadable : StoredSnapshot

pub record Spool : Type 0 where
  pub jobs : List JobRow
  pub dedupe : Dict String DedupeRow
  pub printed_rows : List PrintedRow
  pub device_row : Option StoredSnapshot

abbrev pub empty_spool : Spool
empty_spool = record { jobs = []; dedupe = []; printed_rows = []; device_row = none }

-- `SELECT … WHERE idempotency_key = ?`
unfoldable pub find_key : String → List JobRow → Option JobRow
find_key key [] = none
find_key key (r ∷ rs) = if string_eq.beq r.idempotency_key key then some r else find_key key rs

-- `SELECT … WHERE job_id = ?`
unfoldable pub find_job : String → List JobRow → Option JobRow
find_job id [] = none
find_job id (r ∷ rs) = if string_eq.beq r.job_id id then some r else find_job id rs

pub data InsertResult : Type 0 where
  new_job : InsertResult
  duplicate_job : Option JobResult → InsertResult

abbrev pub new_row : PrintJob → ℕ → JobRow
new_row job now = record {
  job_id = job.job_id;
  idempotency_key = job.idempotency_key;
  payload = job;
  state = queued;
  result = none;
  created_at = now;
  updated_at = now;
}

-- The INSERT: `none` is the `IntegrityError` of a `job_id` that is taken.
abbrev pub insert_row : Option JobRow → PrintJob → ℕ → Spool → Option (InsertResult × Spool)
insert_row (some r) job now s = none
insert_row none job now s = some (new_job, record s { jobs = s.jobs ++ (new_row job now ∷ []) })

abbrev pub insert_unseen : Option JobRow → PrintJob → ℕ → Spool → Option (InsertResult × Spool)
insert_unseen (some r) job now s = some (duplicate_job r.result, s)
insert_unseen none job now s = insert_row (find_job job.job_id s.jobs) job now s

unfoldable pub try_insert : PrintJob → ℕ → Spool → Option (InsertResult × Spool)
try_insert job now s = insert_unseen (find_key job.idempotency_key s.jobs) job now s

abbrev pub is_pending : RowState → Bool
is_pending queued = true
is_pending printing = true
is_pending (finished r) = false

-- `ORDER BY created_at`, rows of one instant in the order of insertion
unfoldable pub insert_by_age : JobRow → List JobRow → List JobRow
insert_by_age r [] = r ∷ []
insert_by_age r (q ∷ qs) =
    if ltb r.created_at q.created_at then r ∷ q ∷ qs else q ∷ insert_by_age r qs

unfoldable pub pending_rows : List JobRow → List JobRow → List JobRow
unfolding insert_by_age
pending_rows sorted [] = sorted
pending_rows sorted (r ∷ rs) =
    pending_rows (if is_pending r.state then insert_by_age r sorted else sorted) rs

unfoldable pub row_ids : List JobRow → List String
row_ids [] = []
row_ids (r ∷ rs) = r.job_id ∷ row_ids rs

-- `Spool.queued`
unfoldable pub queued_jobs : Spool → List String
unfolding pending_rows row_ids
queued_jobs s = row_ids (pending_rows [] s.jobs)

abbrev pub payload_of : Option JobRow → Option PrintJob
payload_of none = none
payload_of (some r) = some r.payload

-- `none` is the `KeyError`.
unfoldable pub load : String → Spool → Option PrintJob
load id s = payload_of (find_job id s.jobs)

-- `UPDATE jobs SET … WHERE job_id = ?`
unfoldable pub update_rows : String → (JobRow → JobRow) → List JobRow → List JobRow
update_rows id f [] = []
update_rows id f (r ∷ rs) = (if string_eq.beq r.job_id id then f r else r) ∷ update_rows id f rs

unfoldable pub mark : String → RowState → ℕ → Spool → Spool
unfolding update_rows
mark id state now s = record s {
  jobs = update_rows id (λ r. record r { state = state; updated_at = now }) s.jobs;
}

abbrev pub finish_row : JobResult → ℕ → JobRow → JobRow
finish_row result now r = record r {
  state = finished result.state;
  result = some result;
  updated_at = now;
}

unfoldable pub finish : String → JobResult → ℕ → Spool → Spool
unfolding update_rows
finish id result now s = record s { jobs = update_rows id (finish_row result now) s.jobs }

unfoldable pub requeue : String → ℕ → Spool → Spool
unfolding mark
requeue id now s = mark id queued now s

abbrev pub result_of : Option JobRow → Option JobResult
result_of none = none
result_of (some r) = r.result

unfoldable pub result_for : String → Spool → Option JobResult
result_for id s = result_of (find_job id s.jobs)

abbrev pub is_row {ℓ} : {A : Type ℓ} → Option A → Bool
is_row none = false
is_row (some a) = true

unfoldable pub is_recent_dedupe : String → Spool → Bool
is_recent_dedupe key s = is_row (dict_get key s.dedupe)

unfoldable pub record_dedupe : String → String → ℕ → Spool → Spool
record_dedupe key id now s = record s {
  dedupe = dict_set key (record { job_id = id; printed_at = now }) s.dedupe;
}

-- `DELETE FROM dedupe WHERE printed_at < ?`; a limit below zero deletes nothing, as 0 does.
unfoldable pub delete_before : ℕ → Dict String DedupeRow → Dict String DedupeRow
delete_before limit [] = []
delete_before limit ((k, r) ∷ d) =
    if ltb r.printed_at limit then delete_before limit d else (k, r) ∷ delete_before limit d

unfoldable pub purge_dedupe : ℕ → ℕ → Spool → Spool
unfolding delete_before
purge_dedupe ttl now s = record s { dedupe = delete_before (now - ttl) s.dedupe }

abbrev pub is_printed : String → ℕ → PrintedRow → Bool
is_printed id index r = string_eq.beq r.job_id id && r.label_index == index

-- `index in self.printed_labels(job_id)`
unfoldable pub label_is_printed : String → ℕ → List PrintedRow → Bool
label_is_printed id index [] = false
label_is_printed id index (r ∷ rs) = is_printed id index r || label_is_printed id index rs

-- `INSERT OR IGNORE`
unfoldable pub label_printed : String → ℕ → ℕ → Spool → Spool
unfolding label_is_printed
label_printed id index now s = if label_is_printed id index s.printed_rows then s else record s {
  printed_rows =
      s.printed_rows ++ (record { job_id = id; label_index = index; printed_at = now } ∷ []);
}

-- `Spool.printed_labels`, as the list of the indices
unfoldable pub printed_labels : String → List PrintedRow → List ℕ
printed_labels id [] = []
printed_labels id (r ∷ rs) =
    if string_eq.beq r.job_id id then r.label_index ∷ printed_labels id rs else printed_labels id rs

unfoldable pub save_device_snapshot : DeviceSnapshot → Spool → Spool
save_device_snapshot d s = record s { device_row = some (readable d) }

abbrev pub snapshot_of : Option StoredSnapshot → DeviceSnapshot
snapshot_of none = no_snapshot
snapshot_of (some (readable d)) = d
snapshot_of (some unreadable) = no_snapshot

unfoldable pub device_snapshot : Spool → DeviceSnapshot
device_snapshot s = snapshot_of s.device_row
