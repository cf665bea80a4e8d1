-- ===== src/Device/Transport.antt =====
-- src/labelfab/device/transport.py: `FakeTransport`, the transport that records what is written and
-- may break off, and computations that use a transport and may raise.
use labelfab.Common.{
  ℕ, suc, ◌+◌, ◌-◌, Bool, true, false, List, [], ◌∷◌, ◌++◌, Option, none, some, length, take, ltb,
  if◌then◌else◌, Result, ok, err,
}
use labelfab.Device.Protocol.{Bytes, ValueError}
use labelfab.Device.Errors.{D30Error, connect_error}
use labelfab.Device.Feedback.{DeviceFeedback}

pub record Transport : Type 0 where
  pub buf : Bytes
  pub flushes : List ℕ
  pub writes : List ℕ
  pub opened : ℕ
  pub closed : ℕ
  pub is_open : Bool
  pub fail_after_bytes : Option ℕ
  pub feedback : DeviceFeedback

-- What the driver raises: its own errors, a `ValueError` of the protocol, or that of a `range` whose
-- step is zero.
pub data DriverError : Type 0 where
  device : D30Error → DriverError
  value : ValueError → DriverError
  zero_step : DriverError

-- An exception leaves the transport as it is when it is raised.
abbrev pub Io : Type 0 → Type 0
Io A = Transport → Result DriverError A × Transport

infixl 5 ◌>>◌
abbrev pub ◌>>◌ : Io (Unit {0}) → Io (Unit {0}) → Io (Unit {0})
◌>>◌ m k t = elim (m t).0 [ ok a ↦ k (m t).1 | err e ↦ (err e, (m t).1) ]

abbrev pub pass : Io (Unit {0})
pass t = (ok tt, t)

abbrev pub raise : DriverError → Io (Unit {0})
raise e t = (err e, t)

-- `len(self.buf) + len(data) > self.fail_after_bytes`
abbrev pub is_over : Option ℕ → ℕ → Bool
is_over none n = false
is_over (some limit) n = ltb limit n

abbrev pub room_left : Option ℕ → ℕ → ℕ
room_left none n = 0
room_left (some limit) n = limit - n

-- What `write` does to a link that is open or not, and over its limit or not. Past the limit only
-- what has room is kept.
abbrev pub write_if : Bool → Bool → Bytes → Io (Unit {0})
write_if false over input t = (err (device connect_error), t)
write_if true true input t = (
  err (device connect_error),
  record t { buf = t.buf ++ take (room_left t.fail_after_bytes (length t.buf)) input },
)
write_if true false input t =
    (ok tt, record t { buf = t.buf ++ input; writes = t.writes ++ (length input ∷ []) })

unfoldable pub write : Bytes → Io (Unit {0})
write input t =
    write_if t.is_open (is_over t.fail_after_bytes (length t.buf + length input)) input t

unfoldable pub flush : Io (Unit {0})
flush t = (ok tt, record t { flushes = t.flushes ++ (length t.buf ∷ []) })

-- `open`
unfoldable pub open_link : Io (Unit {0})
open_link t = (ok tt, record t { is_open = true; opened = suc t.opened })

unfoldable pub close : Transport → Transport
close t = record t { is_open = false; closed = if t.is_open then suc t.closed else t.closed }
