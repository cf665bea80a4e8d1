-- ===== src/Tests/Agent.antt =====
-- The theorems on src/labelfab/agent at concrete inputs.
mod Main
mod Submits
mod Configs
use labelfab.Agent.World.{drawn}
use labelfab.Agent.Printing.Credits.{IsInFlight}
use labelfab.Common.{
  ℕ, zero, suc, ◌+◌, ◌<◌, ◌≤◌, ◌≡◌, ◌↔◌, refl, true, false, ◌&&◌, ◌||◌, ◌==◌, List, [], ◌∷◌, ◌++◌,
  Option, none, some, string_eq, dict_get, All, length, replicate, if◌then◌else◌, ok, ◌⊎◌, inl,
}
use labelfab.Contract.{
  auto, continuous, strip, TapeSpec, LabelSpec, PrintJob, completed, skipped_duplicate, JobResult,
  disconnected,
}
use labelfab.Device.State
use labelfab.Device.Errors.{connect_error, write_timeout}
use labelfab.Device.Raster.{DeviceRaster}
use labelfab.Device.State.{new_state}
use labelfab.Device.Feedback.{new_feedback}
use labelfab.Agent.Snapshot.{DeviceSnapshot, no_snapshot, reported, merge, to_status}
use labelfab.Agent.Snapshot.Merge.{merge_keeps, merge_silent}
use labelfab.Agent.Coalescer.{Image, PendingLabel, Coalescer, seconds_until_idle, idle_expired}
use labelfab.Agent.Coalescer.Batches.{
  IsValid, Op, put, take_strip, run, batch_labels, accepted, run-accepted, seconds_until_idle_iff,
}
use labelfab.Agent.Spool.{
  Spool, printing, empty_spool, find_key, find_job, duplicate_job, new_row, try_insert, finish,
  label_is_printed, label_printed, is_recent_dedupe,
}
use labelfab.Agent.Spool.Intake.{
  Op as SpoolOp, set_state, finish_job, apply_all, try_insert-once, try_insert-finish,
}
use labelfab.Agent.Spool.Progress.{label_is_printed-label_printed}
use labelfab.Agent.World.{JobAcc, Config, Attempt, Env, World, status}
use labelfab.Agent.Sending.{send}
use labelfab.Agent.Sending.Retries.{once, Quiet, send-frames}
use labelfab.Agent.Accounting.{job_result, stall}
use labelfab.Agent.Accounting.Results.{IsFulfilled, job_result-completed_iff}
use labelfab.Agent.Accounting.Stalls.{contains, row_state, requeued, stall-returns}
use labelfab.Agent.Printing.{settle_labels}
use labelfab.Agent.Printing.Credits.{copies_done, occurrences, settle_labels-credits}
use labelfab.Agent.Loop.{probe_if_stale, retry_queued}
use labelfab.Agent.Loop.Probes.{JobsSame, Unprobed, WasDue, probe_if_stale-limits}
use labelfab.Agent.Loop.Retries.{retry_queued-holds}
use labelfab.Agent.Source.{job, Intake, on_message}
use labelfab.Agent.Source.Delivery.{WasNew, WasKnown, WasRefused, on_message-cases}
use labelfab.Agent.Submit.{Plan, new_acc, plan_label, plan_labels}
use labelfab.Agent.Submit.Plans.{IsUnprinted, plan_labels-IsUnprinted}

abbrev small_image : Image
small_image = record { width = 1; height = 1; pixels = 0 ∷ [] }

abbrev small_raster : DeviceRaster
small_raster = record { width_px = 8; height_px = 1; pixels = 0xff ∷ [] }

abbrev wide_tape : TapeSpec
wide_tape = record { width_mm = 1218000; length_mm = auto; kind = continuous }

abbrev config : Config
config = record {
  printer_id = "d30";
  tape = wide_tape;
  raster_width_px = 96;
  discrete_as_strip = true;
  probe_interval = 60000;
  max_attempts = 3;
  retry_interval = 15000;
}

-- The first printer does not answer, the second breaks off, the others print.
abbrev attempt_of : ℕ → Attempt
attempt_of zero = record { connect = some connect_error; print = none; feedback = new_feedback }
attempt_of (suc zero) = record {
  connect = none;
  print = some write_timeout;
  feedback = new_feedback;
}
attempt_of (suc (suc n)) = record { connect = none; print = none; feedback = new_feedback }

abbrev env : Env
env = record {
  config = config;
  render = λ l t. drawn small_image;
  strip_raster = λ is. some small_raster;
  label_raster = λ i. some small_raster;
  attempt = attempt_of;
  clock = λ n. n;
}

abbrev bolt_label : LabelSpec
bolt_label = record {
  layout = "bolt";
  has_preset = true;
  has_vars = true;
  has_elements = false;
  copies = 2;
  length_mm = auto;
  dedupe_key = some "bolt";
}

abbrev bolt_job : PrintJob
bolt_job = record {
  job_id = "j1";
  idempotency_key = "k1";
  require_model = none;
  tape = wide_tape;
  options = record { batch_mode = strip; flush = true };
  labels = bolt_label ∷ [];
}

abbrev idle_strip : Coalescer
idle_strip = record {
  max_wait = 5000;
  max_length_mm = 101500000;
  max_labels = 10;
  separator_mm = 101500;
  pending = [];
  width_mm = none;
  last_add_at = none;
}

abbrev one_job : Spool
one_job = record empty_spool { jobs = new_row bolt_job 5 ∷ [] }

abbrev idle_world : World
idle_world = record {
  spool = one_job;
  coalescer = idle_strip;
  acc = ("j1", new_acc bolt_job) ∷ [];
  stalled = [];
  device = no_snapshot;
  last_probe_attempt = 0;
  attempts = 0;
  reads = 0;
  events = [];
  begun = [];
  printed = [];
}

send-frames_example :
    let (s, v) = send env small_raster true idle_world in
    (v.printed ≡ [] ++ once s.is_ok small_raster)
    × (true ≡ true → v.begun ≡ [] ++ once s.wrote small_raster)
    × (s.is_ok ≡ true → s.wrote ≡ true)
    × (v.attempts ≤ 0 + 3)
    × Quiet idle_world v
send-frames_example = send-frames env small_raster true idle_world

abbrev done_result : JobResult
done_result = record {
  job_id = "j1";
  state = completed;
  duplicate = false;
  partial_tape_consumed = false;
  labels = [];
}

abbrev later_ops : List SpoolOp
later_ops = set_state "j1" printing 6 ∷ finish_job "j1" done_result 7 ∷ []

try_insert-once_example :
    (cached : Option JobResult) × (try_insert bolt_job 9 (apply_all later_ops one_job)
      ≡ some (duplicate_job cached, apply_all later_ops one_job))
unfolding try_insert find_key find_job
try_insert-once_example =
    try_insert-once bolt_job bolt_job 5 9 empty_spool one_job later_ops refl refl

abbrev bolt_pending : PendingLabel
bolt_pending = record { job_id = "j1"; label_index = 0; image = small_image }

abbrev strip_ops : List Op
strip_ops =
    put bolt_pending 1218000 10
    ∷ put bolt_pending 1218000 11
    ∷ put bolt_pending 609000 12
    ∷ take_strip
    ∷ put bolt_pending 609000 13
    ∷ []

run-accepted_example :
    (batch_labels (run idle_strip strip_ops).0 ++ (run idle_strip strip_ops).1.pending
      ≡ [] ++ accepted idle_strip strip_ops)
    × IsValid (run idle_strip strip_ops).1
run-accepted_example = run-accepted idle_strip strip_ops tt

abbrev waiting_strip : Coalescer
waiting_strip = record idle_strip {
  pending = bolt_pending ∷ [];
  width_mm = some 1218000;
  last_add_at = some 1000;
}

-- One label of two copies, one of them printed.
abbrev half_done : JobAcc
half_done = record (new_acc bolt_job) { expected = (0, 2) ∷ []; done = (0, 1) ∷ [] }

job_result-completed_iff_example :
    (length (job_result half_done "j1").labels ≡ 1)
    × (((job_result half_done "j1").state ≡ completed)
        ↔ ((k : ℕ) → k < 1 → IsFulfilled half_done k))
job_result-completed_iff_example = job_result-completed_iff half_done "j1"

stall-returns_example :
    let v = stall env ("j1" ∷ []) idle_world in
    (dict_get "j1" v.acc
      ≡ (if contains "j1" ("j1" ∷ []) then none else dict_get "j1" idle_world.acc))
    × (dict_get "j1" v.stalled
        ≡ (if contains "j1" ("j1" ∷ []) then some 0 else dict_get "j1" idle_world.stalled))
    × (row_state (find_job "j1" v.spool.jobs) ≡ (
        if contains "j1" ("j1" ∷ [])
        then requeued (row_state (find_job "j1" one_job.jobs))
        else row_state (find_job "j1" one_job.jobs)))
    × (v.spool.printed_rows ≡ [])
    × (v.printed ≡ [])
    × (v.events ≡ [] ++ (status (to_status no_snapshot "d30" disconnected (some 1218000) 0) ∷ []))
stall-returns_example = stall-returns env ("j1" ∷ []) "j1" idle_world

plan_labels-IsUnprinted_example :
    let p =
      plan_labels env 0
        (bolt_label ∷ [])
        (record { acc = new_acc bolt_job; queued = []; world = idle_world; fault = none }) in
    All (IsUnprinted "j1" []) p.queued × (p.world.spool.printed_rows ≡ [])
plan_labels-IsUnprinted_example = plan_labels-IsUnprinted env bolt_job idle_world

abbrev known : DeviceSnapshot
known = record no_snapshot { battery_pct = some 80; seen_at = some 1000 }

abbrev two_copies : List PendingLabel
two_copies = bolt_pending ∷ bolt_pending ∷ []

settle_labels-credits_example :
    let (r, v) = settle_labels env true two_copies idle_world in
    (r ≡ ok tt ↔ All (IsInFlight idle_world.acc) two_copies)
    × (r ≡ ok tt
        → (copies_done "j1" 0 v.acc
            ≡ copies_done "j1" 0 idle_world.acc + occurrences "j1" 0 two_copies)
          × (v.printed ≡ []))
settle_labels-credits_example = settle_labels-credits env two_copies idle_world "j1" 0

probe_if_stale-limits_example :
    let v = probe_if_stale env idle_world in
    JobsSame idle_world v × (Unprobed idle_world v ⊎ WasDue env 0 idle_world v)
probe_if_stale-limits_example = probe_if_stale-limits env idle_world

abbrev nut_job : PrintJob
nut_job = record bolt_job { job_id = "j2"; idempotency_key = "k2" }

abbrev two_jobs : Spool
two_jobs = record empty_spool { jobs = new_row bolt_job 5 ∷ new_row nut_job 3 ∷ [] }

abbrev intake : Intake
intake = record { spool = one_job; queue = []; results = []; acks = 4 }

on_message-cases_example :
    let t = on_message 1000 2000 (job bolt_job) intake in
    WasNew bolt_job 2000 intake t ⊎ (WasKnown bolt_job intake t ⊎ WasRefused bolt_job intake t)
on_message-cases_example = on_message-cases 1000 2000 bolt_job intake
