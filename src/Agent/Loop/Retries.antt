-- ===== src/Agent/Loop/Retries.antt =====
-- `retry_queued` of src/labelfab/agent/worker.py: which jobs are left alone.
use labelfab.Common.{
  ℕ, suc, ◌-◌, ◌<◌, ◌≡◌, ◌≢◌, refl, ap, ◌∙◌, ok, ◌⊎◌, true, ◌||◌, List, [], ◌∷◌, Option, none, some,
  String, string_eq, dict_get, All, arith, ltb,
}
use labelfab.Agent.Spool.{queued_jobs, is_row}
use labelfab.Agent.World.{JobAcc, Env, World}
use labelfab.Agent.Printing.Credits.{>>-ok}
use labelfab.Agent.Loop.{stalled_at, retry_at, retry_all, retry_queued}

-- A job that is in flight, or that stalled less than the interval ago.
abbrev pub IsHeld : Env → ℕ → World → String → Type 0
IsHeld env now w id =
    (dict_get id w.acc ≢ none)
    ⊎ (now - stalled_at (dict_get id w.stalled) < env.config.retry_interval)

held-test :
    (o : Option JobAcc) (s now interval : ℕ)
    → (o ≢ none) ⊎ (now - s < interval)
    → (is_row o || ltb (now - s) interval) ≡ true
held-test none s now interval h = ground arith
held-test (some a) s now interval h = refl

retry_at-IsHeld :
    (env : Env) (now : ℕ) (id : String) (w : World)
    → IsHeld env now w id
    → retry_at env now id w ≡ (ok tt, w)
retry_at-IsHeld env now id w h =
    rw
      (held-test (dict_get id w.acc) (stalled_at (dict_get id w.stalled)) now
        env.config.retry_interval h)
      refl

retry_all-IsHeld :
    (env : Env) (now : ℕ) (ids : List String) (w : World)
    → All (IsHeld env now w) ids
    → retry_all env now ids w ≡ (ok tt, w)
unfolding retry_all
retry_all-IsHeld env now [] w h = refl
retry_all-IsHeld env now (id ∷ ids) w (here, there) =
    let left_alone = retry_at-IsHeld env now id w here in
    >>-ok (retry_at env now id) (retry_all env now ids) w (ap (λ x. x.0) left_alone)
    ∙ (ap (λ x. retry_all env now ids x.1) left_alone ∙ retry_all-IsHeld env now ids w there)

-- When every queued job is in flight or stalled less than the interval ago, a retry does nothing but
-- read the clock: no job is submitted and the printer is not dialled.
pub retry_queued-holds :
    (env : Env) (w : World)
    → All (IsHeld env (env.clock w.reads) w) (queued_jobs w.spool)
    → retry_queued env w ≡ (ok tt, record w { reads = suc w.reads })
unfolding retry_queued
retry_queued-holds env w h =
    retry_all-IsHeld env (env.clock w.reads) (queued_jobs w.spool)
      (record w { reads = suc w.reads }) h
