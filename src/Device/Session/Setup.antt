-- ===== src/Device/Session/Setup.antt =====
-- `session_setup` and `auto_shutdown_minutes` of src/labelfab/device/protocol.py.
use labelfab.Common.{
  ℕ, ◌*◌, ◌≤◌, ◌≡◌, ◌↔◌, Bool, true, false, List, [], ◌∷◌, ◌++◌, arith, Result, ok, err, ℤ, pos,
  negsuc, ◌/◌, if◌then◌else◌, ◌>>=◌,
}
use labelfab.Device.Protocol.{
  Bytes, ValueError, bad_density, bad_paper_type, densities, paper_types, one_of, value_bytes, call,
}
use labelfab.Device.Session.{join, session_setup, auto_shutdown_minutes}

-- The nine queries of the captured vendor sequence, in its order.
abbrev pub query_stream : Bytes
query_stream =
    0x1f ∷ 0x11 ∷ 0x38 ∷ 0x1f ∷ 0x11 ∷ 0x12 ∷ 0x1f ∷ 0x11 ∷ 0x13 ∷ 0x1f ∷ 0x11 ∷ 0x09 ∷ 0x1f ∷ 0x11
    ∷ 0x11 ∷ 0x1f ∷ 0x11 ∷ 0x19 ∷ 0x1f ∷ 0x11 ∷ 0x07 ∷ 0x1f ∷ 0x11 ∷ 0x08 ∷ 0x1f ∷ 0x11 ∷ 0x0e ∷ []

abbrev pub setting_bytes : ℕ → ℕ → Bytes
setting_bytes paper_type density = 0x1f ∷ 0x11 ∷ paper_type ∷ 0x1f ∷ 0x11 ∷ 0x02 ∷ density ∷ []

-- The whole sequence as one run of bytes.
abbrev pub sent : Result ValueError (List Bytes) → Result ValueError Bytes
sent r = r >>= λ packets. ok (join packets)

-- A density that is none of the three is refused, then a tape type that is neither of the two;
-- otherwise, batched or not, what is sent is the nine queries, the tape type and the density.
pub session_setup-sent :
    (density : ℕ) (batched : Bool) (paper_type : ℕ)
    → sent (session_setup density batched paper_type) ≡ (
        if one_of density densities
        then (if one_of paper_type paper_types
            then ok (query_stream ++ setting_bytes paper_type density)
            else err (bad_paper_type paper_type))
        else err (bad_density density))
unfolding session_setup call value_bytes
session_setup-sent density true p = ground arith
session_setup-sent density false p = ground arith

-- Minutes are accepted exactly when they are a multiple of five of at most 255 units; the byte sent
-- is the number of units.
pub auto_shutdown_minutes_iff :
    (minutes : ℤ) (out : Bytes)
    → (auto_shutdown_minutes minutes ≡ ok out) ↔ (
        (units : ℕ) × (units ≤ 255)
        × (minutes ≡ pos (units * 5))
        × (out ≡ 0x1b ∷ 0x4e ∷ 0x07 ∷ units ∷ []))
unfolding auto_shutdown_minutes call value_bytes
auto_shutdown_minutes_iff (negsuc n) out = (λ h. cc, λ h. let e = h.2 in cc)
auto_shutdown_minutes_iff (pos n) out =
    (λ h. (n / 5, ground arith, ground arith, ground arith), λ h. ground arith)
