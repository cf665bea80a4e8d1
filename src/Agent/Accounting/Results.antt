-- ===== src/Agent/Accounting/Results.antt =====
-- `_finalize` of src/labelfab/agent/worker.py: what the result of a job says of its labels.
use labelfab.Common.{
  ℕ, zero, suc, ◌+◌, ◌≤◌, ◌<◌, ◌≡◌, ◌≢◌, ◌↔◌, refl, ap, Bool, false, Option, none, some, String,
  length, arith, dict_get, nat_eq,
}
use labelfab.Contract.{failed, LabelResult, completed}
use labelfab.Agent.World.{JobAcc}
use labelfab.Agent.Accounting.{
  count_of, verdict, verdict_of, verdicts, any_failed, any_printed, label_results, job_result,
  job_state,
}

-- Label `i` is done with: settled before printing and not failed, or all its copies are printed.
abbrev pub Fulfilled : Option LabelResult → ℕ → ℕ → Type 0
Fulfilled (some lr) done expected = lr.state ≢ failed
Fulfilled none done expected = (0 < expected) × (expected ≤ done)

abbrev pub IsFulfilled : JobAcc → ℕ → Type 0
IsFulfilled a i = Fulfilled (dict_get i a.render_states) (count_of i a.done) (count_of i a.expected)

verdict_of-Fulfilled :
    (o : Option LabelResult) (i : ℕ) (a : JobAcc)
    → ((verdict_of o i a).has_failed ≡ false)
      ↔ Fulfilled o (count_of i a.done) (count_of i a.expected)
verdict_of-Fulfilled none i a = (λ h. ground arith, λ h. ground arith)
verdict_of-Fulfilled (some lr) i a = (λ h. ground arith, λ h. ground arith)

any_failed-verdicts :
    (a : JobAcc) (i n : ℕ)
    → any_failed (verdicts a i n) ≡ false
    → (k : ℕ) → i ≤ k
    → k < i + n
    → (verdict a k).has_failed ≡ false
unfolding any_failed verdicts
any_failed-verdicts a i zero h k low high = absurd (omega arith)
any_failed-verdicts a i (suc n) h k low high = ground (arith, any_failed-verdicts a (suc i) n _ k)

verdicts-any_failed :
    (a : JobAcc) (i n : ℕ)
    → ((k : ℕ) → i ≤ k → k < i + n → (verdict a k).has_failed ≡ false)
    → any_failed (verdicts a i n) ≡ false
unfolding any_failed verdicts
verdicts-any_failed a i zero h = refl
verdicts-any_failed a i (suc n) h =
    rw (h i (omega arith) (omega arith))
      (verdicts-any_failed a (suc i) n (λ k low high. h k (omega arith) (omega arith)))

length-verdicts : (a : JobAcc) (i n : ℕ) → length (label_results (verdicts a i n)) ≡ n
unfolding label_results verdicts
length-verdicts a i zero = refl
length-verdicts a i (suc n) = ap suc (length-verdicts a (suc i) n)

job_state-completed : (p f : Bool) → (job_state p f ≡ completed) ↔ (f ≡ false)
job_state-completed p f = (λ h. ground arith, λ h. ground arith)

-- The result of a job has one entry for each of its labels, and it says completed exactly when every
-- label either was settled before printing without a failure, or has as many printed copies as it
-- expects, which is at least one.
pub job_result-completed_iff :
    (a : JobAcc) (id : String)
    → (length (job_result a id).labels ≡ length a.job.labels)
      × (((job_result a id).state ≡ completed)
          ↔ ((k : ℕ) → k < length a.job.labels → IsFulfilled a k))
unfolding job_result verdict
job_result-completed_iff a id =
    let n = length a.job.labels in
    let vs = verdicts a 0 n in
    let (state_iff, iff_state) = job_state-completed (any_printed vs) (any_failed vs) in
    (
      length-verdicts a 0 n,
      (
        λ h k less.
            (verdict_of-Fulfilled (dict_get k a.render_states) k a).0
              (any_failed-verdicts a 0 n (state_iff h) k (omega arith) (omega arith)),
        λ h. iff_state (
            verdicts-any_failed a 0 n (λ k low high.
              (verdict_of-Fulfilled (dict_get k a.render_states) k a).1 (h k (omega arith)))),
      ),
    )
