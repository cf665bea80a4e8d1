-- ===== src/Device/Session.antt =====
-- src/labelfab/device/protocol.py: the connect-time sequence, the extra status queries and the
-- automatic power-off setting.
pub mod Setup
use labelfab.Common.{
  ℕ, ◌/◌, ◌%◌, Bool, List, [], ◌∷◌, ◌++◌, leb, ◌==◌, if◌then◌else◌, Result, ok, err, ◌>>=◌, ◌>>◌,
  guard, ℤ, pos, negsuc,
}
use labelfab.Device.Protocol.{
  Bytes, ValueError, bad_density, bad_paper_type, minutes_negative, minutes_off_unit,
  minutes_too_long, Command, call, densities, paper_types, one_of,
}
use labelfab.Device.Commands

-- `[c() for c in commands]`
unfoldable pub call_all : List Command → Result ValueError (List Bytes)
call_all [] = ok []
call_all (c ∷ cs) = do bs ← call c []; rest ← call_all cs; ok (bs ∷ rest)

-- `b"".join(parts)`
unfoldable pub join : List Bytes → Bytes
join [] = []
join (b ∷ bs) = b ++ join bs

unfoldable pub telemetry_refresh : Result ValueError Bytes
unfolding call_all join
telemetry_refresh = call_all Commands.telemetry_queries >>= λ bs. ok (join bs)

unfoldable pub check_paper_type : ℕ → Result ValueError (Unit {0})
check_paper_type p = guard (one_of p paper_types) (bad_paper_type p)

unfoldable pub session_setup : ℕ → Bool → ℕ → Result ValueError (List Bytes)
unfolding check_paper_type call_all join
session_setup density batched paper_type = do
  guard (one_of density densities) (bad_density density)
  check_paper_type paper_type
  queries ← call_all Commands.session_queries
  let packets = if batched then join queries ∷ [] else queries
  tape ← call Commands.paper_type (pos paper_type ∷ [])
  burn ← call Commands.print_density (pos density ∷ [])
  ok (packets ++ ((tape ++ burn) ∷ []))

-- The minutes are any Python integer; a negative one is refused first.
unfoldable pub auto_shutdown_minutes : ℤ → Result ValueError Bytes
auto_shutdown_minutes (negsuc n) = err minutes_negative
auto_shutdown_minutes (pos minutes) = do
  guard (minutes % 5 == 0) (minutes_off_unit minutes)
  guard (leb (minutes / 5) 0xFF) (minutes_too_long minutes)
  call Commands.auto_shutdown_time (pos (minutes / 5) ∷ [])
