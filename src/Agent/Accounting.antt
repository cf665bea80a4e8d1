-- ===== src/Agent/Accounting.antt =====
-- src/labelfab/agent/worker.py: the tally of a job, its result, and the return of stalled jobs.
pub mod Results
pub mod Stalls
use labelfab.Common.{
  ℕ, zero, suc, ◌+◌, Bool, true, false, ◌&&◌, ◌||◌, List, [], ◌∷◌, ◌++◌, Option, none, some, String,
  string_eq, nat_eq, Dict, dict_get, dict_set, dict_pop, length, leb, ltb, ◌==◌, if◌then◌else◌,
  Result, ok, err,
}
use labelfab.Contract.{
  PrintJob, LabelState, printed, failed, skipped_duplicate, LabelResult, JobState, completed,
  partly, all_failed, rejected, JobResult, disconnected,
}
use labelfab.Agent.Spool.{label_printed, requeue, finish}
use labelfab.Agent.World.{
  JobAcc, Env, World, Exc, key_error, M, ◌>>=◌, ◌>>◌, pass, change, result, progress, publish,
  read_clock, publish_status,
}

abbrev pub or_zero : Option ℕ → ℕ
or_zero none = 0
or_zero (some n) = n

-- `d.get(i, 0)`
abbrev pub count_of : ℕ → Dict ℕ ℕ → ℕ
count_of i d = or_zero (dict_get i d)

-- `sum(d.values())`
unfoldable pub sum_values : Dict ℕ ℕ → ℕ
sum_values [] = 0
sum_values ((k, n) ∷ d) = n + sum_values d

unfoldable pub total_expected : JobAcc → ℕ
unfolding sum_values
total_expected a = sum_values a.expected

unfoldable pub settled : JobAcc → ℕ
unfolding sum_values
settled a = sum_values a.done + sum_values a.failed

unfoldable pub is_complete : JobAcc → Bool
is_complete a = leb (total_expected a) (settled a)

abbrev pub set_acc : String → JobAcc → World → World
set_acc id a w = record w { acc = dict_set id a w.acc }

-- `self._acc[job_id]`
unfoldable pub get_acc : String → M JobAcc
get_acc id w = elim (dict_get id w.acc) [ none ↦ (err (key_error id), w) | some a ↦ (ok a, w) ]

abbrev pub one_done : ℕ → JobAcc → JobAcc
one_done i a = record a { done = dict_set i (count_of i a.done + 1) a.done }

abbrev pub one_failed : ℕ → JobAcc → JobAcc
one_failed i a = record a { failed = dict_set i (count_of i a.failed + 1) a.failed }

-- One label, and whether it puts a printed or a failed one into the job.
pub record Verdict : Type 0 where
  pub label : LabelResult
  pub has_printed : Bool
  pub has_failed : Bool

abbrev pub is_printed_state : LabelState → Bool
is_printed_state printed = true
is_printed_state failed = false
is_printed_state skipped_duplicate = false

abbrev pub is_failed_state : LabelState → Bool
is_failed_state printed = false
is_failed_state failed = true
is_failed_state skipped_duplicate = false

abbrev pub counted : ℕ → ℕ → ℕ → Verdict
counted i done expected =
    if leb expected done && ltb 0 expected
    then record {
      label = record { index = i; state = printed; copies_done = done };
      has_printed = true;
      has_failed = false;
    }
    else record {
      label = record { index = i; state = failed; copies_done = done };
      has_printed = ltb 0 done;
      has_failed = true;
    }

abbrev pub verdict_of : Option LabelResult → ℕ → JobAcc → Verdict
verdict_of (some lr) i a = record {
  label = lr;
  has_printed = is_printed_state lr.state;
  has_failed = is_failed_state lr.state;
}
verdict_of none i a = counted i (count_of i a.done) (count_of i a.expected)

-- The body of the loop of `_finalize`.
unfoldable pub verdict : JobAcc → ℕ → Verdict
verdict a i = verdict_of (dict_get i a.render_states) i a

-- `for idx in range(len(acc.job.labels))`: the verdicts from `i` on.
unfoldable pub verdicts : JobAcc → ℕ → ℕ → List Verdict
unfolding verdict
verdicts a i zero = []
verdicts a i (suc n) = verdict a i ∷ verdicts a (suc i) n

unfoldable pub any_printed : List Verdict → Bool
any_printed [] = false
any_printed (v ∷ vs) = v.has_printed || any_printed vs

unfoldable pub any_failed : List Verdict → Bool
any_failed [] = false
any_failed (v ∷ vs) = v.has_failed || any_failed vs

unfoldable pub label_results : List Verdict → List LabelResult
label_results [] = []
label_results (v ∷ vs) = v.label ∷ label_results vs

abbrev pub job_state : Bool → Bool → JobState
job_state true true = partly
job_state false true = all_failed
job_state _ false = completed

unfoldable pub job_result : JobAcc → String → JobResult
unfolding verdicts any_printed any_failed label_results
job_result a id =
    let vs = verdicts a 0 (length a.job.labels) in
    record {
      job_id = id;
      state = job_state (any_printed vs) (any_failed vs);
      duplicate = false;
      partial_tape_consumed = a.partial_tape;
      labels = label_results vs;
    }

module _ (env : Env) where
  -- `spool.finish`, then `publish_result`
  abbrev pub finish_with : String → JobResult → World → World
  finish_with id r w =
      read_clock env (λ now v. publish (result r) (record v { spool = finish id r now v.spool })) w

  -- `_finalize`
  unfoldable pub finalize : String → M (Unit {0})
  unfolding get_acc job_result
  finalize id = do
    a ← get_acc id
    change (λ w. finish_with id (job_result a id) (record w { acc = dict_pop id w.acc }))

  abbrev pub finalize_if : Option JobAcc → String → M (Unit {0})
  finalize_if none id w = pass w
  finalize_if (some a) id w = if is_complete a then finalize id w else pass w

  -- `_maybe_finalize`
  unfoldable pub maybe_finalize : String → M (Unit {0})
  maybe_finalize id w = finalize_if (dict_get id w.acc) id w

  -- `self.spool.label_printed(job_id, index)` under its test
  abbrev pub commit_if_done : String → ℕ → JobAcc → World → World
  commit_if_done id i a w =
      if leb (count_of i a.expected) (count_of i a.done)
      then read_clock env (λ now v. record v { spool = label_printed id i now v.spool }) w
      else w

  -- `_credit_copy`
  unfoldable pub credit_copy : String → ℕ → M (Unit {0})
  unfolding get_acc sum_values total_expected
  credit_copy id i = do
    a ← get_acc id
    let a' = one_done i a
    change (set_acc id a')
    change (commit_if_done id i a')
    change (publish (progress id (sum_values a'.done) (total_expected a')))

  -- `_fail_copy`
  unfoldable pub fail_copy : String → ℕ → M (Unit {0})
  unfolding get_acc
  fail_copy id i = do a ← get_acc id; change (set_acc id (one_failed i a))

  -- `_reject`
  unfoldable pub reject : PrintJob → World → World
  reject job w =
      finish_with job.job_id
        (record {
          job_id = job.job_id;
          state = rejected;
          duplicate = false;
          partial_tape_consumed = false;
          labels = [];
        })
        w

  -- One round of the loop of `_stall`: `now` is the worker's reading, the spool reads its own.
  unfoldable pub stall_job : ℕ → String → World → World
  stall_job now id w =
      read_clock env
        (λ at v. record v {
          spool = requeue id at v.spool;
          acc = dict_pop id v.acc;
          stalled = dict_set id now v.stalled;
        })
        w

  unfoldable pub stall_jobs : ℕ → List String → World → World
  unfolding stall_job
  stall_jobs now [] w = w
  stall_jobs now (id ∷ ids) w = stall_jobs now ids (stall_job now id w)

  -- `_stall`
  unfoldable pub stall : List String → World → World
  unfolding stall_jobs
  stall ids w = publish_status env disconnected 0 (read_clock env (λ now v. stall_jobs now ids v) w)
