-- ===== src/Agent/Submit.antt =====
-- src/labelfab/agent/worker.py: `submit`, from the labels of a job to the strip or the printer.
pub mod Plans
pub mod Strips
pub mod Ends
pub mod Outcomes
use labelfab.Common.{
  ℕ, zero, suc, ◌+◌, ◌-◌, Bool, true, false, ◌&&◌, ◌||◌, not, List, [], ◌∷◌, ◌++◌, Option, none,
  some, String, string_eq, nat_eq, Dict, dict_get, dict_set, replicate, min, leb, ltb, ◌==◌,
  if◌then◌else◌, Result, ok, err, append,
}
use labelfab.Contract.{
  px_to_mm, TapeSpec, TapeKind, continuous, gap, BatchMode, strip, discrete, LabelSpec, PrintJob,
  printed, failed, skipped_duplicate, LabelState, LabelResult,
}
use labelfab.Device.Errors.{D30Error}
use labelfab.Agent.Snapshot.{DeviceSnapshot}
use labelfab.Agent.Coalescer.{Image, PendingLabel, Coalescer, accepts, add, is_full, idle_expired}
use labelfab.Agent.Spool.{
  Spool, RowState, load, mark, printing, queued_jobs, label_is_printed, is_recent_dedupe,
  record_dedupe,
}
use labelfab.Agent.World.{
  JobAcc, Env, Attempt, Rendering, drawn, unrenderable, invalid, Exc, key_error, validation_error,
  World, M, ◌>>=◌, ◌>>◌, pass, change, read_clock,
}
use labelfab.Agent.Sending.{capture_feedback}
use labelfab.Agent.Accounting.{set_acc, total_expected, finalize, maybe_finalize, reject}
use labelfab.Agent.Printing.{flush, run_discrete, publish_settled}

abbrev pub model : String
model = "phomemo-d30"

-- `job.printer.require_model and job.printer.require_model != MODEL`: an empty text is false.
abbrev pub other_model : Option String → Bool
other_model none = false
other_model (some m) = not (string_eq.beq m "") && not (string_eq.beq m model)

abbrev pub new_acc : PrintJob → JobAcc
new_acc job = record {
  job = job;
  expected = [];
  done = [];
  failed = [];
  render_states = [];
  partial_tape = false;
}

abbrev pub set_label : ℕ → LabelState → JobAcc → JobAcc
set_label i state a = record a {
  render_states = dict_set i (record { index = i; state = state; copies_done = 0 }) a.render_states;
}

-- `f"{printer_id}:{label.dedupe_key}" if label.dedupe_key else None`
abbrev pub dedupe_of : String → Option String → Option String
dedupe_of printer none = none
dedupe_of printer (some key) =
    if string_eq.beq key "" then none else some (append printer (append ":" key))

abbrev pub is_duplicate : Option String → Spool → Bool
is_duplicate none s = false
is_duplicate (some key) s = is_recent_dedupe key s

abbrev pub with_strip : Option Coalescer → World → World
with_strip none w = w
with_strip (some c) w = record w { coalescer = c }

-- What the loop over the labels has gathered, and the exception that has ended it, if one has.
pub record Plan : Type 0 where
  pub acc : JobAcc
  pub queued : List (ℕ × Image)
  pub world : World
  pub fault : Option Exc

abbrev pub is_gap : TapeKind → Bool
is_gap gap = true
is_gap continuous = false

abbrev pub is_discrete : BatchMode → Bool
is_discrete discrete = true
is_discrete strip = false

module _ (env : Env) where
  -- `_loaded_tape`: the configured tape, capped at the head.
  abbrev pub loaded_tape : TapeSpec
  loaded_tape = record (env.config.tape) {
    width_mm = min env.config.tape.width_mm (px_to_mm env.config.raster_width_px);
  }

  abbrev pub note_dedupe : Option String → String → World → World
  note_dedupe none id w = w
  note_dedupe (some key) id w =
      read_clock env (λ now v. record v { spool = record_dedupe key id now v.spool }) w

  -- A rendered label joins the queue once for each copy.
  abbrev pub queue_label : ℕ → LabelSpec → Option String → Rendering → Plan → Plan
  queue_label i label dedupe unrenderable p = record p { acc = set_label i failed p.acc }
  queue_label i label dedupe invalid p = record p { fault = some validation_error }
  queue_label i label dedupe (drawn image) p = record p {
    acc = record (p.acc) { expected = dict_set i label.copies p.acc.expected };
    queued = p.queued ++ replicate label.copies (i, image);
    world = note_dedupe dedupe p.acc.job.job_id p.world;
  }

  abbrev pub plan_unprinted : ℕ → LabelSpec → Option String → Plan → Plan
  plan_unprinted i label dedupe p =
      if is_duplicate dedupe p.world.spool
      then record p { acc = set_label i skipped_duplicate p.acc }
      else queue_label i label dedupe (env.render label loaded_tape) p

  -- The body of the loop over the labels.
  unfoldable pub plan_label : ℕ → LabelSpec → Plan → Plan
  plan_label i label p =
      if label_is_printed p.acc.job.job_id i p.world.spool.printed_rows
      then record p { acc = set_label i printed p.acc }
      else plan_unprinted i label (dedupe_of env.config.printer_id label.dedupe_key) p

  -- `for idx, label in enumerate(job.labels)`
  unfoldable pub plan_labels : ℕ → List LabelSpec → Plan → Plan
  unfolding plan_label
  plan_labels i [] p = p
  plan_labels i (l ∷ ls) p =
      let q = plan_label i l p in
      let rest = plan_labels (suc i) ls q in elim q.fault [ none ↦ rest | some e ↦ q ]

  abbrev pub flush_if : Bool → M (Unit {0})
  flush_if true = flush env
  flush_if false = pass

  -- `self.coalescer.add(…)`: a strip of another width was flushed before, so it does not raise.
  abbrev pub add_pending : PendingLabel → ℕ → World → World
  add_pending pl width w = read_clock env (λ now v. with_strip (add v.coalescer pl width now) v) w

  -- `for idx, image in queued: …`
  unfoldable pub add_labels : String → ℕ → List (ℕ × Image) → M (Unit {0})
  unfolding flush
  add_labels id width [] = pass
  add_labels id width ((i, image) ∷ rest) = do
    (λ w. flush_if (not (accepts w.coalescer width)) w)
    change (add_pending (record { job_id = id; label_index = i; image = image }) width)
    (λ w. flush_if (is_full w.coalescer) w)
    add_labels id width rest

  abbrev pub as_strip : PrintJob → Bool
  as_strip job =
      not (is_gap loaded_tape.kind)
      && (is_discrete job.options.batch_mode && env.config.discrete_as_strip)

  abbrev pub is_discrete_job : PrintJob → Bool
  is_discrete_job job =
      (is_discrete job.options.batch_mode && not (as_strip job)) || is_gap loaded_tape.kind

  -- The labels to print, one by one or through the strip.
  abbrev pub print_queued : PrintJob → List (ℕ × Image) → M (Unit {0})
  print_queued job queued =
      if is_discrete_job job then (do flush env; run_discrete env job.job_id queued) else (do
        add_labels job.job_id loaded_tape.width_mm queued
        flush_if (job.options.flush || as_strip job)
        maybe_finalize env job.job_id)

  abbrev pub print_plan : PrintJob → Plan → World → Result Exc (Unit {0}) × World
  print_plan job p w = elim p.fault [
    | some e ↦ (err e, w)
    | none ↦
        if total_expected p.acc == 0 then finalize env job.job_id w else print_queued job p.queued w
  ]

  abbrev pub mark_printing : String → World → World
  mark_printing id w = read_clock env (λ now v. record v { spool = mark id printing now v.spool }) w

  abbrev pub plan_of : PrintJob → World → Plan
  plan_of job w =
      plan_labels 0 job.labels (record {
        acc = new_acc job;
        queued = [];
        world = mark_printing job.job_id w;
        fault = none;
      })

  abbrev pub run_job : PrintJob → M (Unit {0})
  run_job job w = let p = plan_of job w in print_plan job p (set_acc job.job_id p.acc p.world)

  abbrev pub accept_job : PrintJob → M (Unit {0})
  accept_job job = if other_model job.require_model then change (reject env job) else run_job job

  -- `submit`: `load` raises `KeyError` for a job that is not in the spool. The tally of a job is
  -- shared with the loop over its labels, which keeps what was gathered when it raises.
  unfoldable pub submit : String → M (Unit {0})
  unfolding plan_labels add_labels
  submit id w = elim (load id w.spool) [
    | none ↦ (err (key_error id), w)
    | some job ↦ accept_job job w
  ]
