-- ===== src/Contract.antt =====
-- src/labelfab/contract/models.py: the job, its labels and the results.
-- A layout (preset, variables, elements) is only handed to the renderer: here it is opaque text.
-- Lengths are whole numbers of 1/101500 mm, in which a pixel of 25.4/203 mm is exactly 12700 and a
-- hundredth of a millimetre 1015.
pub mod Elements
use labelfab.Common.{
  ℕ, ◌+◌, ◌*◌, ◌/◌, ◌%◌, Bool, true, false, ◌&&◌, not, List, Option, String, ltb, if◌then◌else◌,
}

abbrev pub px_units : ℕ
px_units = 12700

abbrev pub mm_units : ℕ
mm_units = 101500

-- `mm_to_px`: Python's `round` takes a half to the even neighbour.
unfoldable pub mm_to_px : ℕ → ℕ
mm_to_px units =
    let q = units / px_units in
    let r = 2 * (units % px_units) in
    if ltb r px_units then q else if ltb px_units r then q + 1 else q + q % 2

-- `px_to_mm`
abbrev pub px_to_mm : ℕ → ℕ
px_to_mm px = px * px_units

pub data LengthMm : Type 0 where
  auto : LengthMm
  pinned : ℕ → LengthMm

pub data TapeKind : Type 0 where
  continuous gap : TapeKind

pub record TapeSpec : Type 0 where
  pub width_mm : ℕ
  pub length_mm : LengthMm
  pub kind : TapeKind

pub data BatchMode : Type 0 where
  strip discrete : BatchMode

pub record PrintOptions : Type 0 where
  pub batch_mode : BatchMode
  pub flush : Bool

-- One physical label: `has_preset` and `has_elements` say which source of the layout is given,
-- `has_vars` whether there are substitution values.
pub record LabelSpec : Type 0 where
  pub layout : String
  pub has_preset : Bool
  pub has_vars : Bool
  pub has_elements : Bool
  pub copies : ℕ
  pub length_mm : LengthMm
  pub dedupe_key : Option String

-- `LabelSpec._exactly_one_source`
unfoldable pub exactly_one_source : LabelSpec → Bool
exactly_one_source l = if l.has_preset then not l.has_elements else l.has_elements && not l.has_vars

pub record PrintJob : Type 0 where
  pub job_id : String
  pub idempotency_key : String
  pub require_model : Option String
  pub tape : TapeSpec
  pub options : PrintOptions
  pub labels : List LabelSpec

abbrev pub is_strip_on_gap : BatchMode → TapeKind → Bool
is_strip_on_gap strip gap = true
is_strip_on_gap _ _ = false

-- `PrintJob._strip_needs_continuous`
unfoldable pub strip_needs_continuous : PrintJob → Bool
strip_needs_continuous j = not (is_strip_on_gap j.options.batch_mode j.tape.kind)

pub data LabelState : Type 0 where
  printed failed skipped_duplicate : LabelState

pub record LabelResult : Type 0 where
  pub index : ℕ
  pub state : LabelState
  pub copies_done : ℕ

pub data JobState : Type 0 where
  completed partly all_failed rejected : JobState

pub record JobResult : Type 0 where
  pub job_id : String
  pub state : JobState
  pub duplicate : Bool
  pub partial_tape_consumed : Bool
  pub labels : List LabelResult

pub data PrinterState : Type 0 where
  idle printing disconnected error : PrinterState
