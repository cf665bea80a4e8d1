-- ===== src/Agent/Printing/Endings.antt =====
-- src/labelfab/agent/worker.py: how a job leaves the printer, with a result or back in the queue.
use labelfab.Common.{
  ℕ, map, ◌+◌, ◌≡◌, refl, sym, ◌∙◌, ap, subst, true, false, List, [], ◌∷◌, ◌++◌, append_assoc,
  Option, none, some, String, string_eq, nat_eq, arith, dict_get, dict_set, dict_pop,
  dict_get-dict_pop, ◌⊎◌, inl, inr, Result, ok, Dict, beq_self,
}
use labelfab.Contract.{JobResult, JobState, disconnected}
use labelfab.Agent.Snapshot.{PrinterStatus, to_status, settled_state}
use labelfab.Agent.Spool.{JobRow, RowState, finished, find_job, update_rows, finish, finish_row}
use labelfab.Agent.World.{JobAcc, Env, World, Exc, ◌>>◌, Event, result, status, publish_status}
use labelfab.Agent.Accounting.{
  finish_with, count_of, one_done, one_failed, sum_values, settled, total_expected, is_complete,
  finalize, maybe_finalize, job_result, fail_copy, stall,
}
use labelfab.Agent.Accounting.Stalls.{row_state, requeued, stall-returns}
use labelfab.Agent.Printing.{publish_settled}
use labelfab.Agent.Printing.Credits.{get_acc-some, >>-ok}

pub sum_values-dict_set :
    (i n : ℕ) (d : Dict ℕ ℕ) → sum_values (dict_set i n d) + count_of i d ≡ sum_values d + n
unfolding sum_values dict_set dict_get
sum_values-dict_set i n [] = omega arith
sum_values-dict_set i n ((j, m) ∷ d) = ground (arith, sum_values-dict_set i n d)

-- A copy that is credited or failed is one more of the copies that are settled.
pub settled-one_done : (i : ℕ) (a : JobAcc) → settled (one_done i a) ≡ settled a + 1
unfolding settled
settled-one_done i a = omega (arith, sum_values-dict_set i (count_of i a.done + 1) a.done)

pub settled-one_failed : (i : ℕ) (a : JobAcc) → settled (one_failed i a) ≡ settled a + 1
unfolding settled
settled-one_failed i a = omega (arith, sum_values-dict_set i (count_of i a.failed + 1) a.failed)

pub expected-one_done : (i : ℕ) (a : JobAcc) → total_expected (one_done i a) ≡ total_expected a
unfolding total_expected
expected-one_done i a = refl

pub expected-one_failed : (i : ℕ) (a : JobAcc) → total_expected (one_failed i a) ≡ total_expected a
unfolding total_expected
expected-one_failed i a = refl

-- The state of a row after `finish`, if there is a row.
abbrev pub finished_as : JobState → Option RowState → Option RowState
finished_as state none = none
finished_as state (some s) = some (finished state)

pub row_state-finish :
    (id : String) (r : JobResult) (now : ℕ) (rs : List JobRow)
    → row_state (find_job id (update_rows id (finish_row r now) rs))
      ≡ finished_as r.state (row_state (find_job id rs))
unfolding find_job update_rows
row_state-finish id r now [] = refl
row_state-finish id r now (q ∷ rs) = ground (arith, row_state-finish id r now rs)

-- The row of the job is finished with a result, which is published and followed by at most statuses.
abbrev pub IsDone : String → Option RowState → World → Type 0
IsDone id before v =
    (res : JobResult) × (res.job_id ≡ id)
    × (row_state (find_job id v.spool.jobs) ≡ finished_as res.state before)
    × (es : List Event) × (after : List PrinterStatus) × (v.events
        ≡ es ++ (result res ∷ map status after))

-- The row of the job is queued again, and the last message is the status disconnected.
abbrev pub IsReturned : String → Option RowState → World → Type 0
IsReturned id before v =
    (row_state (find_job id v.spool.jobs) ≡ requeued before)
    × (es : List Event) × (s : PrinterStatus) × (s.state ≡ disconnected)
    × (v.events ≡ es ++ (status s ∷ []))

-- The job is not in flight any more, another job `k` stays as it was.
abbrev pub HasLeft :
    String → String → Option RowState → Dict String JobAcc → Result Exc (Unit {0}) × World → Type 0
HasLeft id k before d x =
    (x.0 ≡ ok tt)
    × (dict_get id x.1.acc ≡ none)
    × (string_eq.beq id k ≡ false → dict_get k x.1.acc ≡ dict_get k d)
    × (IsDone id before x.1 ⊎ IsReturned id before x.1)

pub job_result-id : (a : JobAcc) (id : String) → (job_result a id).job_id ≡ id
unfolding job_result
job_result-id a id = refl

-- Only what a step did to the job itself is left out of account.
pub HasLeft-step :
    (id k : String) (w v : World) (x : Result Exc (Unit {0}) × World)
    → v.spool.jobs ≡ w.spool.jobs
    → (string_eq.beq id k ≡ false → dict_get k v.acc ≡ dict_get k w.acc)
    → HasLeft id k (row_state (find_job id v.spool.jobs)) v.acc x
    → HasLeft id k (row_state (find_job id w.spool.jobs)) w.acc x
HasLeft-step id k w v x jobs others (returned, gone, kept, left) = (
  returned,
  gone,
  λ other. kept other ∙ others other,
  subst (λ before. IsDone id before x.1 ⊎ IsReturned id before x.1)
      (ap (λ rows. row_state (find_job id rows)) jobs) left,
)

module _ (env : Env) (id k : String) where
  -- A complete job is finished: its result is written and published.
  pub maybe_finalize_complete :
      (w : World) (a : JobAcc)
      → dict_get id w.acc ≡ some a
      → is_complete a ≡ true
      → maybe_finalize env id w
        ≡ (ok tt, finish_with env id (job_result a id) (record w { acc = dict_pop id w.acc }))
  unfolding maybe_finalize finalize
  maybe_finalize_complete w a found complete = ground (arith, get_acc-some id w a found)

  -- A job that is finished at once has left, with no status after its result.
  pub finalize-HasLeft :
      (w : World) (a : JobAcc)
      → dict_get id w.acc ≡ some a
      → HasLeft id k (row_state (find_job id w.spool.jobs)) w.acc (finalize env id w)
  unfolding finalize finish
  finalize-HasLeft w a found =
      let finalized : finalize env id w
          ≡ (ok tt, finish_with env id (job_result a id) (record w { acc = dict_pop id w.acc })) =
        ground (arith, get_acc-some id w a found) in
      subst (HasLeft id k (row_state (find_job id w.spool.jobs)) w.acc) (sym finalized) (
        refl,
        rw (dict_get-dict_pop id id w.acc, beq_self id) refl,
        λ other. rw (dict_get-dict_pop id k w.acc, other) refl,
        inl (
          job_result a id,
          job_result-id a id,
          row_state-finish id (job_result a id) (env.clock w.reads) w.spool.jobs,
          w.events,
          [],
          refl,
        ),
      )

  pub end-HasLeft :
      (w : World) (a : JobAcc)
      → dict_get id w.acc ≡ some a
      → is_complete a ≡ true
      → HasLeft id k
          (row_state (find_job id w.spool.jobs))
          w.acc
          ((maybe_finalize env id >> (λ v. (ok tt, publish_settled env v))) w)
  unfolding publish_settled publish_status finish
  end-HasLeft w a found complete =
      let finalized = maybe_finalize_complete w a found complete in
      let whole =
        >>-ok (maybe_finalize env id) (λ v. (ok tt, publish_settled env v)) w
          (ap (λ x. x.0) finalized) in
      subst (HasLeft id k (row_state (find_job id w.spool.jobs)) w.acc)
        (sym (whole ∙ ap (λ x. (ok tt, publish_settled env x.1)) finalized))
        (
          refl,
          rw (dict_get-dict_pop id id w.acc, beq_self id) refl,
          λ other. rw (dict_get-dict_pop id k w.acc, other) refl,
          inl (
            job_result a id,
            job_result-id a id,
            row_state-finish id (job_result a id) (env.clock w.reads) w.spool.jobs,
            w.events,
            to_status w.device env.config.printer_id (settled_state w.device)
                  (some env.config.tape.width_mm) 0
                ∷ [],
            append_assoc w.events _ _,
          ),
        )

  pub fail_copy-acc :
      (i : ℕ) (w : World) (a : JobAcc)
      → dict_get id w.acc ≡ some a
      → fail_copy env id i w ≡ (ok tt, record w { acc = dict_set id (one_failed i a) w.acc })
  unfolding fail_copy
  fail_copy-acc i w a found = ground (arith, get_acc-some id w a found)

  pub stall-HasLeft :
      (w : World)
      → HasLeft id k (row_state (find_job id w.spool.jobs)) w.acc (ok tt, stall env (id ∷ []) w)
  unfolding to_status
  stall-HasLeft w =
      let mine = stall-returns env (id ∷ []) id w in
      let other = stall-returns env (id ∷ []) k w in
      (
        refl,
        rw (beq_self id) at mine.0,
        λ differs. rw differs at other.0,
        inr (
          rw (beq_self id) at mine.2,
          w.events,
          to_status w.device env.config.printer_id disconnected (some env.config.tape.width_mm) 0,
          refl,
          mine.5,
        ),
      )
