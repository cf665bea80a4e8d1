-- ===== src/Device/Sockets.antt =====
-- `AFBluetoothTransport` of src/labelfab/device/transport.py, over what the kernel answers: opening,
-- writing, reading and closing an RFCOMM socket. Threads and timeouts are the system's.
pub mod Descriptors
use labelfab.Common.{
  ℕ, suc, Bool, true, false, not, List, [], ◌∷◌, ◌++◌, Option, none, some, take, if◌then◌else◌,
  Result, ok, err, ℤ,
}
use labelfab.Device.Protocol.{Bytes, one_of}
use labelfab.Device.Errors.{D30Error, connect_error, write_timeout, config_error}
use labelfab.Device.Feedback.{DeviceFeedback, Ingested, new_feedback, ingest}
use labelfab.Device.Rfcomm
use labelfab.Device.Rfcomm.{Kernel, ConnectError, address, os_error, timed_out}

-- An `OSError`, by its class and its number.
pub data OsError : Type 0 where
  timeout broken_pipe connection_reset other : ℕ → OsError

pub data Raised : Type 0 where
  device : D30Error → Raised
  unwrapped : OsError → Raised

-- `_wrap_oserror`, with the numbers of `_CONNECTION_ERRNOS`
unfoldable pub wrap_oserror : List ℕ → OsError → Raised
wrap_oserror errnos (timeout n) = device write_timeout
wrap_oserror errnos (broken_pipe n) = device connect_error
wrap_oserror errnos (connection_reset n) = device connect_error
wrap_oserror errnos (other n) =
    if one_of n errnos then device connect_error else unwrapped (other n)

-- Whether there is a socket, whether its reader runs, how many sockets were made and how many closed,
-- and what went out and came in.
pub record Link : Type 0 where
  pub is_open : Bool
  pub reading : Bool
  pub made : ℕ
  pub closed : ℕ
  pub sent : Bytes
  pub feedback : DeviceFeedback

-- What `open` meets: the platform, the error of `socket`, the address and the kernel's answers.
pub record Peer : Type 0 where
  pub is_linux : Bool
  pub socket_errno : Option ℕ
  pub raw_mac : Option Bytes
  pub channel : ℤ
  pub kernel : Kernel
  pub read : Bool

abbrev pub Done : Type 0
Done = Result Raised (Unit {0}) × Link

-- After the connect: `sock.close()` where it raises.
abbrev pub connected : Peer → Result ConnectError (Unit {0}) → Link → Done
connected p (ok _) l =
    (ok tt, record l { is_open = true; reading = p.read; feedback = new_feedback })
connected p (err (address e)) l = (err (device config_error), record l { closed = suc l.closed })
connected p (err (os_error n)) l = (err (device connect_error), record l { closed = suc l.closed })
connected p (err timed_out) l = (err (device connect_error), record l { closed = suc l.closed })

abbrev pub with_socket : Peer → Option ℕ → Link → Done
with_socket p (some n) l = (err (device connect_error), l)
with_socket p none l =
    connected p (Rfcomm.connect p.kernel p.raw_mac p.channel) (record l { made = suc l.made })

abbrev pub open_on : Bool → Peer → Link → Done
open_on false p l = (err (device connect_error), l)
open_on true p l = with_socket p p.socket_errno l

abbrev pub open_unless : Bool → Peer → Link → Done
open_unless true p l = (ok tt, l)
open_unless false p l = open_on p.is_linux p l

-- `open`
unfoldable pub open_link : Peer → Link → Done
unfolding Rfcomm.connect new_feedback
open_link p l = open_unless l.is_open p l

-- What `sendall` does: it sends everything, or raises after some bytes.
pub data Sending : Type 0 where
  all_sent : Sending
  broke : ℕ → OsError → Sending

abbrev pub sendall : List ℕ → Bytes → Sending → Link → Done
sendall errnos input all_sent l = (ok tt, record l { sent = l.sent ++ input })
sendall errnos input (broke n e) l =
    (err (wrap_oserror errnos e), record l { sent = l.sent ++ take n input })

abbrev pub write_if : Bool → List ℕ → Bytes → Sending → Link → Done
write_if false errnos input how l = (err (device connect_error), l)
write_if true errnos input how l = sendall errnos input how l

-- `write`
unfoldable pub write : List ℕ → Bytes → Sending → Link → Done
unfolding wrap_oserror
write errnos input how l = write_if l.is_open errnos input how l

-- `close`
abbrev pub close_if : Bool → Link → Link
close_if false l = record l { reading = false }
close_if true l = record l { is_open = false; reading = false; closed = suc l.closed }

unfoldable pub close : Link → Link
close l = close_if l.is_open l

-- What a `recv` of the reader brings: nothing before the timeout, an error, or bytes.
pub data Received : Type 0 where
  nothing_yet lost : Received
  bytes : Bytes → Received

-- A decode fault does not stop the reader.
abbrev pub or_keep : DeviceFeedback → Ingested → DeviceFeedback
or_keep fb (ok (frames, next)) = next
or_keep fb (err e) = fb

-- `_read_loop`: the reads until an error, the end of the stream or the stop.
unfoldable pub read_loop : List Received → DeviceFeedback → DeviceFeedback
unfolding ingest
read_loop [] fb = fb
read_loop (nothing_yet ∷ rs) fb = read_loop rs fb
read_loop (lost ∷ rs) fb = fb
read_loop (bytes [] ∷ rs) fb = fb
read_loop (bytes (b ∷ bs) ∷ rs) fb = read_loop rs (or_keep fb (ingest fb (b ∷ bs)))
