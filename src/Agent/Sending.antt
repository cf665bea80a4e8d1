-- ===== src/Agent/Sending.antt =====
-- src/labelfab/agent/worker.py: `_send`, the retrying send of one frame, and `_capture_feedback`.
pub mod Retries
use labelfab.Common.{
  ℕ, zero, suc, ◌+◌, Bool, true, false, ◌&&◌, List, [], ◌∷◌, ◌++◌, Option, none, some, ltb,
  if◌then◌else◌,
}
use labelfab.Device.Errors.{D30Error, retryable}
use labelfab.Device.Raster.{DeviceRaster}
use labelfab.Device.Feedback.{DeviceFeedback}
use labelfab.Agent.Snapshot.{merge}
use labelfab.Agent.Spool.{save_device_snapshot}
use labelfab.Agent.World.{Env, Attempt, World, read_clock}

-- `_Send`: `error` is the last exception, if there was one.
pub record Send : Type 0 where
  pub is_ok : Bool
  pub wrote : Bool
  pub error : Option D30Error

abbrev pub sent : Send
sent = record { is_ok = true; wrote = true; error = none }

abbrev pub unwritten : Option D30Error → Send
unwritten e = record { is_ok = false; wrote = false; error = e }

abbrev pub broken : D30Error → Send
broken e = record { is_ok = false; wrote = true; error = some e }

module _ (env : Env) where
  -- `_capture_feedback`
  unfoldable pub capture_feedback : DeviceFeedback → World → World
  capture_feedback fb w =
      read_clock env
        (λ now v.
          let d = merge v.device fb now in
          record v { device = d; spool = save_device_snapshot d v.spool })
        w

  abbrev pub begin_frame : DeviceRaster → World → World
  begin_frame raster w = record w { begun = w.begun ++ (raster ∷ []) }

  abbrev pub complete_frame : DeviceRaster → World → World
  complete_frame raster w = record w { printed = w.printed ++ (raster ∷ []) }

  -- `exc.retryable and attempt + 1 < self.max_attempts`
  abbrev pub may_retry : D30Error → ℕ → Bool
  may_retry e i = retryable e && ltb (i + 1) env.config.max_attempts

  -- After a connection: the frame is begun, and the printer takes it or breaks off. `again` is the
  -- next round of the loop.
  unfoldable pub print_frame :
      DeviceRaster → Bool → ℕ → Attempt → (World → Send × World) → World → Send × World
  unfolding capture_feedback
  print_frame raster is_strip i at again w = elim at.print [
    | none ↦ (sent, capture_feedback at.feedback (complete_frame raster (begin_frame raster w)))
    | some e ↦
        let w' = capture_feedback at.feedback (begin_frame raster w) in
        elim is_strip [
          | true ↦ (broken e, w')
          | false ↦ elim (may_retry e i) [ true ↦ again w' | false ↦ (broken e, w') ]
        ]
  ]

  -- One round: a printer from the factory, connected or not.
  unfoldable pub send_round :
      DeviceRaster
      → Bool
      → ℕ
      → Attempt
      → (Option D30Error → World → Send × World)
      → World
      → Send × World
  unfolding print_frame
  send_round raster is_strip i at again w = elim at.connect [
    | none ↦ print_frame raster is_strip i at (again at.print) w
    | some e ↦ elim (may_retry e i) [ true ↦ again (some e) w | false ↦ (unwritten (some e), w) ]
  ]

  abbrev pub next_printer : World → World
  next_printer w = record w { attempts = suc w.attempts }

  -- `for attempt in range(self.max_attempts)`, with the rounds left, the number of the round and the
  -- last error. The pauses between rounds change nothing in the state.
  unfoldable pub send_from : DeviceRaster → Bool → ℕ → ℕ → Option D30Error → World → Send × World
  unfolding send_round
  send_from raster is_strip zero i last w = (unwritten last, w)
  send_from raster is_strip (suc n) i last w =
      send_round raster is_strip i (env.attempt w.attempts)
        (λ e v. send_from raster is_strip n (suc i) e v) (next_printer w)

  -- `_send`
  unfoldable pub send : DeviceRaster → Bool → World → Send × World
  unfolding send_from
  send raster is_strip w = send_from raster is_strip env.config.max_attempts 0 none w
