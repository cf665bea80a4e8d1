-- ===== src/Device/State/Faults.antt =====
-- `DeviceState.fault` and `ingest` of src/labelfab/device/responses.py.
use labelfab.Common.{
  ℕ, ◌≡◌, ◌≢◌, ◌↔◌, ◌⊎◌, Bool, false, ◌++◌, Option, none, some, String, string_eq, Dict, dict_get,
  dict_get-dict_set, arith, if◌then◌else◌,
}
use labelfab.Device.Tags.{PaperState, Value}
use labelfab.Device.Parser.{StatusFrame}
use labelfab.Device.State.{
  DeviceState, ingest_frame, stored_value, store, paper_state, paper_ok, material_error,
  print_cancelled, joined, fault, ok_bit, paper_problems, material_problems, cancel_problems,
}

no_problem :
    (p : Option PaperState) (m : Option ℕ) (c : Bool)
    → (joined (paper_problems p ++ (material_problems m ++ cancel_problems c)) ≡ none)
      ↔ ((ok_bit p ≢ some false) × ((m ≡ none) ⊎ (m ≡ some 0)) × (c ≡ false))
no_problem p m c = (λ h. ground arith, λ h. ground arith)

-- The state has no fault exactly when the paper is not reported bad, no material code but zero is
-- known, and no cancelled print is known.
pub fault_iff :
    (s : DeviceState)
    → (fault s ≡ none) ↔ (
        (paper_ok s ≢ some false)
        × ((material_error s ≡ none) ⊎ (material_error s ≡ some 0))
        × (print_cancelled s ≡ false))
unfolding fault
fault_iff s = no_problem (paper_state s) (material_error s) (print_cancelled s)

abbrev pub newest : Option Value → Option Value → Option Value
newest none old = old
newest (some v) old = some v

dict_get-store :
    (name k : String) (v : Option Value) (d : Dict String Value)
    → dict_get k (store name v d)
      ≡ (if string_eq.beq name k then newest v (dict_get k d) else dict_get k d)
dict_get-store name k none d = ground arith
dict_get-store name k (some v) d = dict_get-dict_set name k v d

-- A frame sets the value of its own name, if it brings one, and leaves every other name alone.
pub values-ingest_frame :
    (s : DeviceState) (f : StatusFrame) (k : String)
    → dict_get k (ingest_frame s f).values ≡ (
        if string_eq.beq f.name k
        then newest (stored_value f.value f.raw) (dict_get k s.values)
        else dict_get k s.values)
unfolding ingest_frame
values-ingest_frame s f k = dict_get-store f.name k (stored_value f.value f.raw) s.values
