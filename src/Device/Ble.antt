-- ===== src/Device/Ble.antt =====
-- `BleTransport` of src/labelfab/device/ble.py, over what the Bluetooth stack answers: opening, writing
-- in packets that wait for an acknowledgement, and closing. Threads and the event loop are the
-- system's.
pub mod Packets
use labelfab.Common.{
  ℕ, zero, suc, ◌+◌, ◌-◌, max, Bool, true, false, not, ◌&&◌, List, [], ◌∷◌, ◌++◌, Option, none,
  some, length, take, drop, ◌==◌, if◌then◌else◌, Result, ok, err,
}
use labelfab.Device.Protocol.{Bytes}
use labelfab.Device.Errors.{D30Error, connect_error, write_timeout}
use labelfab.Device.Feedback.{DeviceFeedback, Ingested, bytes_eq, new_feedback, ingest}
use labelfab.Device.Tags.{ack}

-- Whether there is a client, whether the event loop runs, whether the printer notifies and so gates
-- the packets, whether its acknowledgement is set, what it has told, and the packets written.
pub record Link : Type 0 where
  pub has_client : Bool
  pub has_loop : Bool
  pub has_ack : Bool
  pub is_acked : Bool
  pub feedback : DeviceFeedback
  pub packets : List Bytes

abbrev pub Done : Type 0
Done = Result D30Error (Unit {0}) × Link

-- What `_connect` comes to: an exception, a time-out before or after the client is kept, or a client
-- with or without notifications.
pub data Connecting : Type 0 where
  refused timed_out_first timed_out_later : Connecting
  connected : Bool → Connecting

-- `self._start_loop()` with a fresh feedback
abbrev pub started : Link → Link
started l = record l { has_loop = true; feedback = new_feedback }

-- `_teardown_loop`
abbrev pub torn_down : Link → Link
torn_down l = record l { has_loop = false }

abbrev pub after_connect : Connecting → Link → Done
after_connect refused l = (err connect_error, torn_down (record l { has_client = false }))
after_connect timed_out_first l = (err connect_error, torn_down l)
after_connect timed_out_later l = (
  err connect_error,
  torn_down (record l { has_client = true; has_ack = true; is_acked = false }),
)
after_connect (connected notifies) l =
    (ok tt, record l { has_client = true; has_ack = notifies; is_acked = false })

abbrev pub open_with : Bool → Connecting → Link → Done
open_with false how l = (err connect_error, l)
open_with true how l = after_connect how (started l)

abbrev pub open_unless : Bool → Bool → Connecting → Link → Done
open_unless true has_bleak how l = (ok tt, l)
open_unless false has_bleak how l = open_with has_bleak how l

-- `open`, with the optional dependency installed or not
unfoldable pub open_link : Bool → Connecting → Link → Done
unfolding new_feedback
open_link has_bleak how l = open_unless l.has_client has_bleak how l

-- A decode fault leaves what was known.
abbrev pub or_keep : DeviceFeedback → Ingested → DeviceFeedback
or_keep fb (ok (frames, next)) = next
or_keep fb (err e) = fb

-- `_on_notify`
unfoldable pub on_notify : Bytes → Link → Link
unfolding ingest
on_notify input l = record l {
  feedback = or_keep l.feedback (ingest l.feedback input);
  is_acked = if l.has_ack && bytes_eq input ack then true else l.is_acked;
}

-- `getattr(self._client, "mtu_size", 23) or 23`, then `max(20, mtu - 3)`
abbrev pub mtu_of : Option ℕ → ℕ
mtu_of none = 23
mtu_of (some zero) = 23
mtu_of (some (suc n)) = suc n

abbrev pub packet_size : Option ℕ → ℕ
packet_size mtu_size = max 20 (mtu_of mtu_size - 3)

-- What becomes of each packet: it is written and acknowledged in time, or not in time, or the write
-- raises.
pub data Fate : Type 0 where
  acknowledged unacknowledged broken : Fate

abbrev pub set_ack : Bool → Bool → Link → Link
set_ack gated b l = if gated then record l { is_acked = b } else l

abbrev pub written : Bytes → Link → Link
written p l = record l { packets = l.packets ++ (p ∷ []) }

-- One packet: whether the write goes on.
abbrev pub packet : Fate → Bool → Bytes → Link → Bool × Link
packet acknowledged gated p l = (true, set_ack gated true (written p (set_ack gated false l)))
packet unacknowledged gated p l = (true, written p (set_ack gated false l))
packet broken gated p l = (false, set_ack gated false l)

-- The packets of what is left to write: whether all were written.
unfoldable pub write_packets : ℕ → ℕ → Bool → (ℕ → Fate) → Bytes → Link → Bool × Link
write_packets size fuel gated fate [] l = (true, l)
write_packets size zero gated fate (b ∷ bs) l = (false, l)
write_packets size (suc fuel) gated fate (b ∷ bs) l =
    let (goes_on, m) = packet (fate (length l.packets)) gated (take size (b ∷ bs)) l in
    let rest = write_packets size fuel gated fate (drop size (b ∷ bs)) m in
    if goes_on then rest else (false, m)

-- What stops a write early: the time-out of `_run`, or another exception.
abbrev pub failure : Bool → D30Error
failure true = write_timeout
failure false = connect_error

abbrev pub outcome : Bool → Bool × Link → Done
outcome hangs (true, l) = (ok tt, l)
outcome hangs (false, l) = (err (failure hangs), l)

-- `write` on a link whose client is connected or not
unfoldable pub write : Bool → Option ℕ → Bool → Bool → (ℕ → Fate) → Bytes → Link → Done
unfolding write_packets
write is_connected mtu_size flow_control hangs fate input l =
    if l.has_client && is_connected && l.has_loop
    then outcome hangs (
        write_packets (packet_size mtu_size) (length input) (flow_control && l.has_ack) fate input
          l)
    else (err connect_error, l)

-- `close`
unfoldable pub close : Link → Link
close l = torn_down (record l { has_client = false })
