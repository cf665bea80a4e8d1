-- ===== src/Agent/Snapshot/Merge.antt =====
-- `DeviceSnapshot.merge` of src/labelfab/agent/device_state.py.
use labelfab.Common.{ℕ, ◌≡◌, refl, Bool, false, ◌||◌, Option, none, List, arith}
use labelfab.Device.State
use labelfab.Device.State.{Problem}
use labelfab.Device.Feedback.{DeviceFeedback}
use labelfab.Agent.Snapshot.{DeviceSnapshot, merge, reported, is_given}

-- A connection forgets no field that was known.
pub merge_keeps :
    (s : DeviceSnapshot) (fb : DeviceFeedback) (now : ℕ)
    → ((merge s fb now).serial ≡ none → s.serial ≡ none)
      × ((merge s fb now).firmware ≡ none → s.firmware ≡ none)
      × ((merge s fb now).battery_pct ≡ none → s.battery_pct ≡ none)
      × ((merge s fb now).voltage_v ≡ none → s.voltage_v ≡ none)
      × ((merge s fb now).media_ok ≡ none → s.media_ok ≡ none)
      × ((merge s fb now).seen_at ≡ none → s.seen_at ≡ none)
unfolding merge
merge_keeps s fb now = (
  λ h. ground arith,
  λ h. ground arith,
  λ h. ground arith,
  λ h. ground arith,
  λ h. ground arith,
  λ h. ground arith,
)

all_none :
    (a b : Option (List ℕ)) (c d : Option ℕ) (e : Option Bool)
    → (is_given a || (is_given b || (is_given c || (is_given d || is_given e)))) ≡ false
    → (a ≡ none) × (b ≡ none) × (c ≡ none) × (d ≡ none) × (e ≡ none)
all_none a b c d e h = ground arith

-- A connection on which none of the five fields was reported changes nothing but the fault, which it
-- takes from that connection alone; the time of the last report stays.
pub merge_silent :
    (s : DeviceSnapshot) (fb : DeviceFeedback) (now : ℕ)
    → reported fb ≡ false
    → merge s fb now ≡ record s { fault = State.fault fb.state }
unfolding merge reported
merge_silent s fb now h =
    let st = fb.state in
    let (no_serial, no_firmware, no_battery, no_voltage, no_paper) =
      all_none (State.serial st) (State.firmware st) (State.battery_pct st) (State.voltage_v st)
        (State.paper_ok st) h in
    rw (h, no_serial, no_firmware, no_battery, no_voltage, no_paper) refl
