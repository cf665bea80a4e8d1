-- ===== src/Agent/Printing/Discrete.antt =====
-- `_run_discrete` of src/labelfab/agent/worker.py: a job that is printed label by label.
use labelfab.Common.{
  Option-cases, inl, inr, none, ◌≢◌, All, ℕ, suc, ◌+◌, ◌≡◌, refl, sym, ◌∙◌, ap, subst, Bool, true,
  false, List, [], ◌∷◌, some, String, string_eq, nat_eq, arith, dict_get, dict_set,
  dict_get-dict_set, ok, length, beq_self,
}
use labelfab.Contract.{printing}
use labelfab.Device.Raster.{DeviceRaster}
use labelfab.Agent.Coalescer.{Image}
use labelfab.Agent.Spool.{find_job}
use labelfab.Agent.World.{JobAcc, Env, World, M, ◌>>◌, publish_status}
use labelfab.Agent.Sending.{send}
use labelfab.Agent.Sending.Retries.{send-frames}
use labelfab.Agent.Accounting.{
  one_done, one_failed, settled, total_expected, is_complete, credit_copy, fail_copy, stall,
}
use labelfab.Agent.Accounting.Stalls.{row_state}
use labelfab.Agent.Printing.{run_discrete, send_label}
use labelfab.Agent.Printing.Credits.{credit_copy-acc, >>-ok}
use labelfab.Agent.Printing.Endings.{
  settled-one_done, settled-one_failed, expected-one_done, expected-one_failed, HasLeft,
  HasLeft-step, end-HasLeft, fail_copy-acc, stall-HasLeft,
}

module _ (env : Env) (id k : String) where
  -- One label is settled, whether by a credit or as failed, and the rest is printed.
  more-HasLeft :
      (step : M (Unit {0})) (queued : List (ℕ × Image)) (v : World) (b : JobAcc)
      → ((step v).0 ≡ ok tt)
        × ((step v).1.acc ≡ dict_set id b v.acc)
        × ((step v).1.spool.jobs ≡ v.spool.jobs)
      → ((u : World)
          → dict_get id u.acc ≡ some b
          → HasLeft id k
              (row_state (find_job id u.spool.jobs))
              u.acc
              (run_discrete env id queued u))
      → HasLeft id k
          (row_state (find_job id v.spool.jobs))
          v.acc
          ((step >> run_discrete env id queued) v)
  more-HasLeft step queued v b (returned, acc, jobs) rest =
      let u = (step v).1 in
      let found : dict_get id u.acc ≡ some b =
        ap (dict_get id) acc ∙ dict_get-dict_set id id b v.acc ∙ rw (beq_self id) refl in
      subst (HasLeft id k (row_state (find_job id v.spool.jobs)) v.acc)
        (sym (>>-ok step (run_discrete env id queued) v returned))
        (HasLeft-step id k v u (run_discrete env id queued u) jobs
          (λ other. ap (dict_get k) acc ∙ dict_get-dict_set id k b v.acc ∙ rw other refl)
          (rest u found))

  round-HasLeft :
      (i : ℕ) (queued : List (ℕ × Image)) (v : World) (a : JobAcc) (is_ok wrote : Bool)
      → dict_get id v.acc ≡ some a
      → settled a + suc (length queued) ≡ total_expected a
      → ((b : JobAcc) (u : World)
          → settled b ≡ settled a + 1
          → total_expected b ≡ total_expected a
          → dict_get id u.acc ≡ some b
          → HasLeft id k
              (row_state (find_job id u.spool.jobs))
              u.acc
              (run_discrete env id queued u))
      → HasLeft id k (row_state (find_job id v.spool.jobs)) v.acc (elim is_ok [
        | true ↦ (credit_copy env id i >> run_discrete env id queued) v
        | false ↦ elim wrote [
          | false ↦ (ok tt, stall env (id ∷ []) v)
          | true ↦ (fail_copy env id i >> run_discrete env id queued) v
        ]
      ])
  round-HasLeft i queued v a true wrote found all rest =
      let (returned, acc, _, jobs) = credit_copy-acc env id i v a found in
      more-HasLeft (credit_copy env id i) queued v (one_done i a) (returned, acc, jobs)
        (λ u. rest (one_done i a) u (settled-one_done i a) (expected-one_done i a))
  round-HasLeft i queued v a false true found all rest =
      let failed = fail_copy-acc env id k i v a found in
      more-HasLeft (fail_copy env id i) queued v (one_failed i a)
        (ap (λ x. x.0) failed, ap (λ x. x.1.acc) failed, ap (λ x. x.1.spool.jobs) failed)
        (λ u. rest (one_failed i a) u (settled-one_failed i a) (expected-one_failed i a))
  round-HasLeft i queued v a false false found all rest = stall-HasLeft env id k v

  send_label-HasLeft :
      (i : ℕ) (raster : DeviceRaster) (queued : List (ℕ × Image)) (w : World) (a : JobAcc)
      → dict_get id w.acc ≡ some a
      → settled a + suc (length queued) ≡ total_expected a
      → ((b : JobAcc) (u : World)
          → settled b ≡ settled a + 1
          → total_expected b ≡ total_expected a
          → dict_get id u.acc ≡ some b
          → HasLeft id k
              (row_state (find_job id u.spool.jobs))
              u.acc
              (run_discrete env id queued u))
      → HasLeft id k
          (row_state (find_job id w.spool.jobs))
          w.acc
          (send_label env id i (run_discrete env id queued) raster w)
  unfolding publish_status
  send_label-HasLeft i raster queued w a found all rest =
      let before = publish_status env printing 1 w in
      let (s, v) = send env raster false before in
      let quiet = (send-frames env raster false before).4 in
      let same : v.acc ≡ w.acc = quiet.acc_same in
      HasLeft-step id k w v (send_label env id i (run_discrete env id queued) raster w)
        quiet.jobs_same (λ _. ap (dict_get k) same)
        (round-HasLeft i queued v a s.is_ok s.wrote (ap (dict_get id) same ∙ found) all rest)

  -- What is left to print is what is left to settle, and the raster of each label can be made.
  pub run_discrete-HasLeft :
      (queued : List (ℕ × Image)) (w : World) (a : JobAcc)
      → dict_get id w.acc ≡ some a
      → settled a + length queued ≡ total_expected a
      → All (λ q. env.label_raster q.1 ≢ none) queued
      → HasLeft id k (row_state (find_job id w.spool.jobs)) w.acc (run_discrete env id queued w)
  unfolding run_discrete is_complete
  run_discrete-HasLeft [] w a found all made = end-HasLeft env id k w a found (ground arith)
  run_discrete-HasLeft ((i, image) ∷ queued) w a found all (made, others) =
      elim (Option-cases (env.label_raster image)) [
        | inl unmade ↦ absurd (made unmade)
        | inr (raster, drawn) ↦ rw drawn (
            send_label-HasLeft i raster queued w a found all
              (λ b u more total there. run_discrete-HasLeft queued u b there (omega arith) others))
      ]
