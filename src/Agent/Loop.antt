-- ===== src/Agent/Loop.antt =====
-- src/labelfab/agent/worker.py: the entry points of the run loop, `tick`, `retry_queued`, `recover`
-- and `probe_device`. Times are in milliseconds, and the clock does not go back.
pub mod Probes
pub mod Retries
use labelfab.Common.{
  Result, ok, err, ℕ, suc, ◌-◌, Bool, true, false, ◌||◌, List, [], ◌∷◌, Option, none, some, String,
  string_eq, dict_get, dict_set, ltb, ◌==◌, if◌then◌else◌,
}
use labelfab.Agent.Coalescer.{idle_expired}
use labelfab.Agent.Spool.{queued_jobs, is_row}
use labelfab.Agent.World.{
  Env, Attempt, World, Exc, key_error, M, ◌>>=◌, ◌>>◌, pass, change, read_clock,
}
use labelfab.Agent.Sending.{capture_feedback, next_printer}
use labelfab.Agent.Printing.{flush, publish_settled}
use labelfab.Agent.Submit.{submit, flush_if}

-- `d.get(job_id, 0.0)`
abbrev pub stalled_at : Option ℕ → ℕ
stalled_at none = 0
stalled_at (some t) = t

-- `seen is not None and now - seen < interval`
abbrev pub is_fresh : Option ℕ → ℕ → ℕ → Bool
is_fresh none now interval = false
is_fresh (some t) now interval = ltb (now - t) interval

-- `KeyError` is passed over; any other exception goes on.
abbrev pub unless_key_error : Result Exc (Unit {0}) → Result Exc (Unit {0})
unless_key_error (ok u) = ok u
unless_key_error (err (key_error id)) = ok tt
unless_key_error (err e) = err e

module _ (env : Env) where
  -- `try: self.submit(job_id) except KeyError: pass`
  unfoldable pub try_submit : String → M (Unit {0})
  unfolding submit
  try_submit id w = let (r, v) = submit env id w in (unless_key_error r, v)

  abbrev pub retry_at : ℕ → String → M (Unit {0})
  retry_at now id w =
      if is_row (dict_get id w.acc)
        || ltb (now - stalled_at (dict_get id w.stalled)) env.config.retry_interval
      then (ok tt, w)
      else try_submit id (record w { stalled = dict_set id now w.stalled })

  unfoldable pub retry_all : ℕ → List String → M (Unit {0})
  retry_all now [] = pass
  retry_all now (id ∷ ids) = do retry_at now id; retry_all now ids

  -- `retry_queued`
  unfoldable pub retry_queued : M (Unit {0})
  unfolding retry_all
  retry_queued w =
      let v = record w { reads = suc w.reads } in
      retry_all (env.clock w.reads) (queued_jobs v.spool) v

  unfoldable pub submit_all : List String → M (Unit {0})
  submit_all [] = pass
  submit_all (id ∷ ids) = do try_submit id; submit_all ids

  -- `recover`
  unfoldable pub recover : M (Unit {0})
  unfolding submit_all
  recover w = submit_all (queued_jobs w.spool) w

  abbrev pub probe_with : Attempt → World → Bool × World
  probe_with at w = elim at.connect [
    | some e ↦ (false, w)
    | none ↦ (true, publish_settled env (capture_feedback env at.feedback w))
  ]

  -- `probe_device`: every error of the connection, whatever its class, ends the probe.
  unfoldable pub probe_device : World → Bool × World
  unfolding capture_feedback publish_settled
  probe_device w =
      let v = read_clock env (λ now u. record u { last_probe_attempt = now }) w in
      probe_with (env.attempt v.attempts) (next_printer env v)

  abbrev pub probe_at : ℕ → World → World
  probe_at now w =
      if ltb (now - w.last_probe_attempt) env.config.probe_interval
        || is_fresh w.device.seen_at now env.config.probe_interval
      then w
      else (probe_device w).1

  -- `probe_if_stale`: an interval of 0 turns the probe off.
  unfoldable pub probe_if_stale : World → World
  unfolding probe_device
  probe_if_stale w = if env.config.probe_interval == 0 then w else read_clock env probe_at w

  abbrev pub is_idle : World → ℕ → Bool
  is_idle w now = idle_expired w.coalescer now

  -- `tick`: an exception of the flush or of a submission ends it.
  unfoldable pub tick : M (Unit {0})
  unfolding flush
  tick = do
    (λ w. flush_if env (is_idle w (env.clock w.reads)) (read_clock env (λ now v. v) w))
    retry_queued
    change probe_if_stale
