-- ===== src/Device/Sockets/Descriptors.antt =====
-- `AFBluetoothTransport` of src/labelfab/device/transport.py: that no socket is left behind.
use labelfab.Common.{
  ◌↔◌, ℤ, pos, length, ◌≤◌, ℕ, ◌+◌, ◌≡◌, true, false, List, [], ◌∷◌, Option, none, some,
  if◌then◌else◌, err, arith,
}
use labelfab.Device.Protocol.{Bytes}
use labelfab.Device.Rfcomm
use labelfab.Device.Rfcomm.{ConnectError, address, os_error, timed_out}
use labelfab.Device.Errors.{config_error}
use labelfab.Device.Sockets.{
  device, Link, Peer, Sending, Received, open_link, write, close, read_loop,
}

-- What is done with a link, with the answers that it gets.
pub data Op : Type 0 where
  open_to : Peer → Op
  send : List ℕ → Bytes → Sending → Op
  receive : List Received → Op
  shut : Op

abbrev pub apply : Op → Link → Link
apply (open_to p) l = (open_link p l).1
apply (send errnos input how) l = (write errnos input how l).1
apply (receive rs) l = record l { feedback = read_loop rs l.feedback }
apply shut l = close l

abbrev pub apply_all : List Op → Link → Link
apply_all [] l = l
apply_all (op ∷ ops) l = apply_all ops (apply op l)

-- The sockets made are those closed and the one that is open; a reader runs on an open one only.
abbrev pub IsBalanced : Link → Type 0
IsBalanced l =
    (l.made ≡ l.closed + (if l.is_open then 1 else 0)) × (l.is_open ≡ false → l.reading ≡ false)

apply-IsBalanced : (op : Op) (l : Link) → IsBalanced l → IsBalanced (apply op l)
unfolding open_link write close
apply-IsBalanced (open_to p) l h = ground arith
apply-IsBalanced (send errnos input how) l h = ground arith
apply-IsBalanced (receive rs) l h = h
apply-IsBalanced shut l h = ground arith

close-closed :
    (l : Link) → IsBalanced l → ((close l).is_open ≡ false) × ((close l).made ≡ (close l).closed)
unfolding close
close-closed l h = ground arith

-- Whatever is done with a link and whatever the kernel answers, each socket that was made is closed or
-- is the one that is open, a reader runs only on an open one, and closing the link leaves none.
pub apply_all-IsBalanced :
    (ops : List Op) (l : Link)
    → IsBalanced l
    → let m = apply_all ops l in
      IsBalanced m × ((close m).is_open ≡ false) × ((close m).made ≡ (close m).closed)
apply_all-IsBalanced [] l h =
    let (shut_now, none_left) = close-closed l h in (h, shut_now, none_left)
apply_all-IsBalanced (op ∷ ops) l h =
    apply_all-IsBalanced ops (apply op l) (apply-IsBalanced op l h)

-- An address that `sockaddr_rc` takes.
abbrev pub IsAddress : Option Bytes → ℤ → Type 0
IsAddress (some raw_mac) (pos channel) = (length raw_mac ≡ 6) × (channel ≤ 255)
IsAddress _ _ = ⊥

-- `open` of a closed link raises an error that is not retried exactly when there is a socket and the
-- address is malformed.
pub open_link-config_error_iff :
    (p : Peer) (l : Link)
    → l.is_open ≡ false
    → ((open_link p l).0 ≡ err (device config_error))
      ↔ ((p.is_linux ≡ true) × (p.socket_errno ≡ none) × (¬ IsAddress p.raw_mac p.channel))
unfolding open_link Rfcomm.connect Rfcomm.sockaddr_rc
open_link-config_error_iff p l h = ground arith
