-- ===== src/Agent/World.antt =====
-- The state of `PrintWorker` (src/labelfab/agent/worker.py), what it is given, and computations that
-- change the state and may raise.
use labelfab.Common.{
  ℕ, suc, Bool, List, [], ◌∷◌, ◌++◌, Option, some, String, string_eq, nat_eq, Dict, Result, ok, err,
}
use labelfab.Contract.{TapeSpec, LabelSpec, PrintJob, LabelResult, JobResult, PrinterState}
use labelfab.Device.Errors.{D30Error}
use labelfab.Device.Raster.{DeviceRaster}
use labelfab.Device.Feedback.{DeviceFeedback}
use labelfab.Agent.Snapshot.{DeviceSnapshot, PrinterStatus, to_status}
use labelfab.Agent.Coalescer.{Coalescer, Image}
use labelfab.Agent.Spool.{Spool}

-- `_JobAcc`
pub record JobAcc : Type 0 where
  pub job : PrintJob
  pub expected : Dict ℕ ℕ
  pub done : Dict ℕ ℕ
  pub failed : Dict ℕ ℕ
  pub render_states : Dict ℕ LabelResult
  pub partial_tape : Bool

-- The settings that the worker reads.
pub record Config : Type 0 where
  pub printer_id : String
  pub tape : TapeSpec
  pub raster_width_px : ℕ
  pub discrete_as_strip : Bool
  pub probe_interval : ℕ
  pub max_attempts : ℕ
  pub retry_interval : ℕ

-- What one printer from the factory does: the `D30Error` of `connect` and `refresh_telemetry`, if any,
-- that of `print_raster`, if any, and what the printer has said by then. Other errors of a printer are
-- left out.
pub record Attempt : Type 0 where
  pub connect : Option D30Error
  pub print : Option D30Error
  pub feedback : DeviceFeedback

-- What `render_label` does: it returns a picture, raises a `RenderError`, which the worker handles, or
-- raises pydantic's `ValidationError`.
pub data Rendering : Type 0 where
  drawn : Image → Rendering
  unrenderable invalid : Rendering

-- The renderer; `to_device`, after `concat_strip` for a strip and alone for a label, where `none` is a
-- `ValueError`; the printers that the factory hands out one after the other, and the readings of the
-- clock, in milliseconds.
pub record Env : Type 0 where
  pub config : Config
  pub render : LabelSpec → TapeSpec → Rendering
  pub strip_raster : List Image → Option DeviceRaster
  pub label_raster : Image → Option DeviceRaster
  pub attempt : ℕ → Attempt
  pub clock : ℕ → ℕ

-- What is handed to the publisher.
pub data Event : Type 0 where
  result : JobResult → Event
  status : PrinterStatus → Event
  progress : String → ℕ → ℕ → Event

-- The worker's fields, then how many printers and clock readings it has used, what it has published,
-- the frames that it handed to `print_raster`, and those that the printer took without an error.
pub record World : Type 0 where
  pub spool : Spool
  pub coalescer : Coalescer
  pub acc : Dict String JobAcc
  pub stalled : Dict String ℕ
  pub device : DeviceSnapshot
  pub last_probe_attempt : ℕ
  pub attempts : ℕ
  pub reads : ℕ
  pub events : List Event
  pub begun : List DeviceRaster
  pub printed : List DeviceRaster

pub data Exc : Type 0 where
  key_error : String → Exc
  validation_error value_error : Exc

-- An exception leaves the state as it is when it is raised.
abbrev pub M : Type 0 → Type 0
M A = World → Result Exc A × World

infixl 5 ◌>>=◌ ◌>>◌
abbrev pub ◌>>=◌ : {A B : Type 0} → M A → (A → M B) → M B
◌>>=◌ m f w = elim (m w).0 [ ok a ↦ f a (m w).1 | err e ↦ (err e, (m w).1) ]

abbrev pub ◌>>◌ : {B : Type 0} → M (Unit {0}) → M B → M B
◌>>◌ m k = m >>= λ _. k

abbrev pub pass : M (Unit {0})
pass w = (ok tt, w)

abbrev pub change : (World → World) → M (Unit {0})
change f w = (ok tt, f w)

abbrev pub raise : Exc → M (Unit {0})
raise e w = (err e, w)

-- `self.publisher.publish_…`
abbrev pub publish : Event → World → World
publish e w = record w { events = w.events ++ (e ∷ []) }

module _ (env : Env) where
  -- A call of the clock, and what is done with its reading.
  abbrev pub read_clock : (ℕ → World → World) → World → World
  read_clock f w = f (env.clock w.reads) (record w { reads = suc w.reads })

  -- `_publish_status`
  unfoldable pub publish_status : PrinterState → ℕ → World → World
  publish_status state pending w =
      publish
        (status
          (to_status w.device env.config.printer_id state (some env.config.tape.width_mm) pending))
        w
