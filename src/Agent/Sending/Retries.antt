-- ===== src/Agent/Sending/Retries.antt =====
-- `_send` of src/labelfab/agent/worker.py: how often a frame is handed over and printed.
use labelfab.Common.{
  ℕ, zero, suc, ◌+◌, ◌≤◌, ◌≡◌, Bool, true, false, List, [], ◌∷◌, ◌++◌, Option, none, some, arith,
  append-nil, if◌then◌else◌,
}
use labelfab.Device.Errors.{D30Error}
use labelfab.Device.Raster.{DeviceRaster}
use labelfab.Device.Feedback.{DeviceFeedback}
use labelfab.Agent.Spool.{save_device_snapshot}
use labelfab.Agent.World.{Env, World}
use labelfab.Agent.Sending.{
  Send, send_round, capture_feedback, next_printer, begin_frame, send_from, send,
}

-- The raster, once or not at all.
abbrev pub once : Bool → DeviceRaster → List DeviceRaster
once b r = if b then r ∷ [] else []

-- Between two states only the memory of the device, the clock and the printers have moved.
pub record Quiet (w v : World) : Type 0 where
  pub jobs_same : v.spool.jobs ≡ w.spool.jobs
  pub dedupe_same : v.spool.dedupe ≡ w.spool.dedupe
  pub rows_same : v.spool.printed_rows ≡ w.spool.printed_rows
  pub coalescer_same : v.coalescer ≡ w.coalescer
  pub acc_same : v.acc ≡ w.acc
  pub stalled_same : v.stalled ≡ w.stalled
  pub events_same : v.events ≡ w.events

module _ (env : Env) where
  -- What a send from round `i`, with `n` rounds left, does to the frames.
  abbrev Frames : DeviceRaster → Bool → ℕ → World → Send × World → Type 0
  Frames raster is_strip n w (s, v) =
      (v.printed ≡ w.printed ++ once s.is_ok raster)
      × (is_strip ≡ true → v.begun ≡ w.begun ++ once s.wrote raster)
      × (s.is_ok ≡ true → s.wrote ≡ true)
      × (v.attempts ≤ w.attempts + n)
      × Quiet w v

  abbrev Rounds : DeviceRaster → Bool → ℕ → (Option D30Error → World → Send × World) → Type 0
  Rounds raster is_strip n again =
      (e : Option D30Error) (w : World) → Frames raster is_strip n w (again e w)

  -- One more round keeps to it, from what the further rounds do.
  round-Frames :
      (raster : DeviceRaster) (is_strip : Bool) (n i : ℕ) (c p : Option D30Error)
      (fb : DeviceFeedback) (again : Option D30Error → World → Send × World) (w : World)
      → Rounds raster is_strip n again
      → Frames raster is_strip (suc n) w (
          send_round env raster is_strip i
            (record { connect = c; print = p; feedback = fb })
            again
            (next_printer env w))
  unfolding send_round save_device_snapshot
  round-Frames raster is_strip n i (some e) p fb again w more =
      ground (arith, append-nil w.printed, append-nil w.begun, more (some e) (next_printer env w))
  round-Frames raster is_strip n i none none fb again w more = ground arith
  round-Frames raster true n i none (some e) fb again w more = ground (arith, append-nil w.printed)
  round-Frames raster false n i none (some e) fb again w more =
      let w' = capture_feedback env fb (begin_frame env raster (next_printer env w)) in
      ground (arith, append-nil w.printed, more (some e) w')

  send_from-Frames :
      (raster : DeviceRaster) (is_strip : Bool) (n i : ℕ) (last : Option D30Error) (w : World)
      → Frames raster is_strip n w (send_from env raster is_strip n i last w)
  unfolding send_from
  send_from-Frames raster is_strip zero i last w =
      ground (arith, append-nil w.printed, append-nil w.begun)
  send_from-Frames raster is_strip (suc n) i last w =
      let at = env.attempt w.attempts in
      round-Frames raster is_strip n i at.connect at.print at.feedback
        (λ e v. send_from env raster is_strip n (suc i) e v) w
        (λ e v. send_from-Frames raster is_strip n (suc i) e v)

-- A send prints the frame exactly when it reports success, and then once, and success is reported
-- as written. A strip is handed to a printer exactly when the send reports that it wrote, and never
-- twice. At most `max_attempts` printers are tried, and nothing of the jobs, the pending strip or
-- the publisher changes.
pub send-frames :
    (env : Env) (raster : DeviceRaster) (is_strip : Bool) (w : World)
    → let (s, v) = send env raster is_strip w in
      (v.printed ≡ w.printed ++ once s.is_ok raster)
      × (is_strip ≡ true → v.begun ≡ w.begun ++ once s.wrote raster)
      × (s.is_ok ≡ true → s.wrote ≡ true)
      × (v.attempts ≤ w.attempts + env.config.max_attempts)
      × Quiet w v
unfolding send
send-frames env raster is_strip w =
    send_from-Frames env raster is_strip env.config.max_attempts 0 none w
