-- ===== src/Agent/Loop/Probes.antt =====
-- `probe_if_stale` of src/labelfab/agent/worker.py: when the printer is dialled.
use labelfab.Common.{ℕ, suc, ◌-◌, ◌≤◌, ◌<◌, ◌≡◌, ◌⊎◌, Bool, true, false, Option, none, some, arith}
use labelfab.Device.Errors.{D30Error}
use labelfab.Device.Feedback.{DeviceFeedback}
use labelfab.Agent.Spool.{save_device_snapshot}
use labelfab.Agent.World.{Env, Attempt, World, publish_status}
use labelfab.Agent.Sending.{capture_feedback}
use labelfab.Agent.Printing.{publish_settled}
use labelfab.Agent.Loop.{is_fresh, probe_with, probe_device, probe_if_stale}

-- Of two states of the worker: no job, strip or frame has moved.
pub record JobsSame (w v : World) : Type 0 where
  pub jobs_same : v.spool.jobs ≡ w.spool.jobs
  pub dedupe_same : v.spool.dedupe ≡ w.spool.dedupe
  pub rows_same : v.spool.printed_rows ≡ w.spool.printed_rows
  pub acc_same : v.acc ≡ w.acc
  pub coalescer_same : v.coalescer ≡ w.coalescer
  pub stalled_same : v.stalled ≡ w.stalled
  pub begun_same : v.begun ≡ w.begun

module _ (env : Env) where
  abbrev answered : Option D30Error → Bool
  answered none = true
  answered (some e) = false

  -- One probe, at the printer that the factory hands out.
  abbrev Probed : Attempt → World → Bool × World → Type 0
  Probed at w (b, v) =
      (b ≡ answered at.connect)
      × (v.attempts ≡ suc w.attempts)
      × (v.last_probe_attempt ≡ env.clock w.reads)
      × (b ≡ false → (v.device ≡ w.device) × (v.events ≡ w.events))
      × JobsSame w v

  probe_with-Probed :
      (c p : Option D30Error) (fb : DeviceFeedback) (w : World)
      → let at : Attempt = record { connect = c; print = p; feedback = fb } in
        Probed at w (
          probe_with env at (record w {
            last_probe_attempt = env.clock w.reads;
            reads = suc w.reads;
            attempts = suc w.attempts;
          }))
  unfolding capture_feedback publish_settled publish_status save_device_snapshot
  probe_with-Probed none p fb w = ground arith
  probe_with-Probed (some e) p fb w = ground arith

  probe_device-Probed : (w : World) → Probed (env.attempt w.attempts) w (probe_device env w)
  unfolding probe_device
  probe_device-Probed w =
      let at = env.attempt w.attempts in probe_with-Probed at.connect at.print at.feedback w

-- A last report, if there is one, is at least `interval` old.
abbrev pub IsStale : Option ℕ → ℕ → ℕ → Type 0
IsStale none now interval = Unit {0}
IsStale (some t) now interval = interval ≤ now - t

-- The probe was not made.
abbrev pub Unprobed : World → World → Type 0
Unprobed w v =
    (v.attempts ≡ w.attempts)
    × (v.last_probe_attempt ≡ w.last_probe_attempt)
    × (v.device ≡ w.device)
    × (v.events ≡ w.events)

-- It was made, once, when it was due at `now`, and its time was noted.
abbrev pub WasDue : Env → ℕ → World → World → Type 0
WasDue env now w v =
    (v.attempts ≡ suc w.attempts)
    × (v.last_probe_attempt ≡ env.clock (suc w.reads))
    × (0 < env.config.probe_interval)
    × (env.config.probe_interval ≤ now - w.last_probe_attempt)
    × IsStale w.device.seen_at now env.config.probe_interval

is_fresh-IsStale :
    (o : Option ℕ) (now interval : ℕ) → is_fresh o now interval ≡ false → IsStale o now interval
is_fresh-IsStale none now interval h = tt
is_fresh-IsStale (some t) now interval h = ground arith

-- The background probe dials at most one printer, and only when the interval is not 0, and neither
-- the last attempt nor the last report is younger than the interval. Probed or not, no job, strip or
-- frame changes.
pub probe_if_stale-limits :
    (env : Env) (w : World)
    → let v = probe_if_stale env w in
      JobsSame w v × (Unprobed w v ⊎ WasDue env (env.clock w.reads) w v)
unfolding probe_if_stale
probe_if_stale-limits env w = ground (
  arith,
  probe_device-Probed env (record w { reads = suc w.reads }),
  is_fresh-IsStale w.device.seen_at (env.clock w.reads) env.config.probe_interval,
)
