-- ===== src/Agent/Snapshot.antt =====
-- src/labelfab/agent/device_state.py: the last thing that the printer said, and when.
pub mod Merge
use labelfab.Common.{
  ℕ, ◌/◌, Bool, true, false, ◌||◌, List, [], ◌∷◌, Option, none, some, String, if◌then◌else◌,
}
use labelfab.Contract.{PrinterState, idle, error}
use labelfab.Device.State
use labelfab.Device.State.{Problem}
use labelfab.Device.Feedback.{DeviceFeedback}

-- Times are in milliseconds; a voltage is in hundredths of a volt.
pub record DeviceSnapshot : Type 0 where
  pub serial : Option (List ℕ)
  pub firmware : Option (List ℕ)
  pub battery_pct : Option ℕ
  pub voltage_v : Option ℕ
  pub media_ok : Option Bool
  pub fault : Option (List Problem)
  pub seen_at : Option ℕ

unfoldable pub no_snapshot : DeviceSnapshot
no_snapshot = record {
  serial = none;
  firmware = none;
  battery_pct = none;
  voltage_v = none;
  media_ok = none;
  fault = none;
  seen_at = none;
}

-- `new or old`: an empty text is false.
abbrev pub or_text : Option (List ℕ) → Option (List ℕ) → Option (List ℕ)
or_text none old = old
or_text (some []) old = old
or_text (some (c ∷ cs)) old = some (c ∷ cs)

-- `old if new is None else new`
abbrev pub or_else {ℓ} : {A : Type ℓ} → Option A → Option A → Option A
or_else none old = old
or_else (some a) old = some a

abbrev pub is_given {ℓ} : {A : Type ℓ} → Option A → Bool
is_given none = false
is_given (some a) = true

-- `any(v is not None for v in reported)`
unfoldable pub reported : DeviceFeedback → Bool
reported fb =
    is_given (State.serial fb.state)
    || (is_given (State.firmware fb.state)
        || (is_given (State.battery_pct fb.state)
            || (is_given (State.voltage_v fb.state) || is_given (State.paper_ok fb.state))))

unfoldable pub merge : DeviceSnapshot → DeviceFeedback → ℕ → DeviceSnapshot
merge s fb now = record {
  serial = or_text (State.serial fb.state) s.serial;
  firmware = or_text (State.firmware fb.state) s.firmware;
  battery_pct = or_else (State.battery_pct fb.state) s.battery_pct;
  voltage_v = or_else (State.voltage_v fb.state) s.voltage_v;
  media_ok = or_else (State.paper_ok fb.state) s.media_ok;
  fault = State.fault fb.state;
  seen_at = if reported fb then some now else s.seen_at;
}

-- `DeviceSnapshot.settled_state`
unfoldable pub settled_state : DeviceSnapshot → PrinterState
settled_state s = if is_given s.fault then error else idle

-- The retained status message. The model is the constant `phomemo-d30`.
pub record PrinterStatus : Type 0 where
  pub printer_id : String
  pub state : PrinterState
  pub serial : Option (List ℕ)
  pub firmware : Option (List ℕ)
  pub battery_pct : Option ℕ
  pub voltage_v : Option ℕ
  pub media_ok : Option Bool
  pub tape_width_mm : Option ℕ
  pub pending_labels : ℕ
  pub error : Option (List Problem)
  pub device_seen_at : Option ℕ

abbrev pub whole_seconds : Option ℕ → Option ℕ
whole_seconds none = none
whole_seconds (some t) = some (t / 1000)

unfoldable pub to_status : DeviceSnapshot → String → PrinterState → Option ℕ → ℕ → PrinterStatus
to_status s printer_id state tape_width_mm pending_labels = record {
  printer_id = printer_id;
  state = state;
  serial = s.serial;
  firmware = s.firmware;
  battery_pct = s.battery_pct;
  voltage_v = s.voltage_v;
  media_ok = s.media_ok;
  tape_width_mm = tape_width_mm;
  pending_labels = pending_labels;
  error = s.fault;
  device_seen_at = whole_seconds s.seen_at;
}
