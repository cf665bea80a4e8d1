-- ===== src/Device/State.antt =====
-- src/labelfab/device/responses.py: `DeviceState`, what the printer has told on one connection.
pub mod Faults
use labelfab.Common.{
  ℕ, suc, ◌+◌, Bool, true, false, not, List, [], ◌∷◌, ◌++◌, Option, none, some, String, string_eq,
  Dict, dict_get, dict_set, length, take, leb, ◌==◌, if◌then◌else◌,
}
use labelfab.Device.Protocol.{Bytes}
use labelfab.Device.Tags.{
  PaperState, paper_ok_bit, Value, int, centi, flag, text, paper, caps, bytes,
}
use labelfab.Device.Parser.{StatusFrame}

pub record DeviceState : Type 0 where
  pub acks : ℕ
  pub frames : List StatusFrame
  pub values : Dict String Value
  pub prints_completed : ℕ

unfoldable pub new_state : DeviceState
new_state = record { acks = 0; frames = []; values = []; prints_completed = 0 }

-- The value of a frame, or its bytes if it has none and they are not empty.
abbrev pub stored_value : Option Value → Bytes → Option Value
stored_value (some v) raw = some v
stored_value none [] = none
stored_value none (b ∷ bs) = some (bytes (b ∷ bs))

abbrev pub store : String → Option Value → Dict String Value → Dict String Value
store name none values = values
store name (some v) values = dict_set name v values

-- `DeviceState.ingest`
unfoldable pub ingest_frame : DeviceState → StatusFrame → DeviceState
ingest_frame s f = record {
  acks = s.acks;
  frames = s.frames ++ (f ∷ []);
  values = store f.name (stored_value f.value f.raw) s.values;
  prints_completed =
      if string_eq.beq f.name "print_complete" then s.prints_completed + 1 else s.prints_completed;
}

-- `isinstance(v, str)`, `isinstance(v, int)` and the like. A Python `bool` is an `int`.
abbrev pub as_text : Option Value → Option (List ℕ)
as_text (some (text t)) = some t
as_text _ = none

abbrev pub as_int : Option Value → Option ℕ
as_int (some (int n)) = some n
as_int (some (flag true)) = some 1
as_int (some (flag false)) = some 0
as_int _ = none

abbrev pub as_float : Option Value → Option ℕ
as_float (some (centi n)) = some n
as_float _ = none

abbrev pub as_paper : Option Value → Option PaperState
as_paper (some (paper p)) = some p
as_paper _ = none

abbrev pub serial : DeviceState → Option (List ℕ)
serial s = as_text (dict_get "serial" s.values)

abbrev pub prefix_of : Option (List ℕ) → Option (List ℕ)
prefix_of none = none
prefix_of (some s) = if leb 4 (length s) then some (take 4 s) else none

abbrev pub model_prefix : DeviceState → Option (List ℕ)
model_prefix s = prefix_of (serial s)

abbrev pub firmware : DeviceState → Option (List ℕ)
firmware s = as_text (dict_get "firmware" s.values)

abbrev pub battery_pct : DeviceState → Option ℕ
battery_pct s = as_int (dict_get "battery" s.values)

abbrev pub paper_state : DeviceState → Option PaperState
paper_state s = as_paper (dict_get "paper_state" s.values)

abbrev pub ok_bit : Option PaperState → Option Bool
ok_bit none = none
ok_bit (some p) = some (paper_ok_bit p)

abbrev pub paper_ok : DeviceState → Option Bool
paper_ok s = ok_bit (paper_state s)

abbrev pub voltage_v : DeviceState → Option ℕ
voltage_v s = as_float (dict_get "voltage_v" s.values)

abbrev pub material_error : DeviceState → Option ℕ
material_error s = as_int (dict_get "material_error" s.values)

abbrev pub is_some : Option Value → Bool
is_some none = false
is_some (some v) = true

abbrev pub print_cancelled : DeviceState → Bool
print_cancelled s = is_some (dict_get "print_cancelled" s.values)

-- The complaints that `fault` joins into its text.
pub data Problem : Type 0 where
  media_not_ready : PaperState → Problem
  material : ℕ → Problem
  cancelled : Problem

abbrev pub paper_problems : Option PaperState → List Problem
paper_problems none = []
paper_problems (some p) = if paper_ok_bit p then [] else media_not_ready p ∷ []

abbrev pub material_problems : Option ℕ → List Problem
material_problems none = []
material_problems (some n) = if n == 0 then [] else material n ∷ []

abbrev pub cancel_problems : Bool → List Problem
cancel_problems false = []
cancel_problems true = cancelled ∷ []

-- `"; ".join(problems) or None`
abbrev pub joined : List Problem → Option (List Problem)
joined [] = none
joined (p ∷ ps) = some (p ∷ ps)

-- `DeviceState.fault`
unfoldable pub fault : DeviceState → Option (List Problem)
fault s = joined (
    paper_problems (paper_state s)
    ++ (material_problems (material_error s) ++ cancel_problems (print_cancelled s)))
