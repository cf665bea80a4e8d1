-- ===== src/Device/Rfcomm.antt =====
-- src/labelfab/device/_rfcomm.py: the address of an RFCOMM peer, and the connect through libc. What the
-- kernel answers is a parameter, as are the error numbers of the platform.
use labelfab.Common.{
  ℕ, ◌/◌, ◌%◌, Bool, true, false, List, [], ◌∷◌, ◌++◌, Option, none, some, length, leb, ◌==◌,
  if◌then◌else◌, Result, ok, err, ◌>>◌, guard, ℤ, pos, negsuc,
}
use labelfab.Device.Protocol.{Bytes, one_of}

pub data AddressError : Type 0 where
  bad_address bad_channel : AddressError

pub data ConnectError : Type 0 where
  address : AddressError → ConnectError
  os_error : ℕ → ConnectError
  timed_out : ConnectError

abbrev pub af_bluetooth : ℕ
af_bluetooth = 31

-- `raw_mac[::-1]`
unfoldable pub reversed : Bytes → Bytes
reversed [] = []
reversed (b ∷ bs) = reversed bs ++ (b ∷ [])

abbrev pub is_channel : ℤ → Bool
is_channel (pos n) = leb n 255
is_channel (negsuc n) = false

abbrev pub channel_byte : ℤ → ℕ
channel_byte (pos n) = n
channel_byte (negsuc n) = 0

-- `AF_BLUETOOTH.to_bytes(2, sys.byteorder)`
abbrev pub family_bytes : Bool → Bytes
family_bytes true = (af_bluetooth % 256) ∷ (af_bluetooth / 256) ∷ []
family_bytes false = (af_bluetooth / 256) ∷ (af_bluetooth % 256) ∷ []

-- `sockaddr_rc`, from what `bytes.fromhex` makes of the address, none where it raises, on a machine
-- whose byte order is little-endian or not.
unfoldable pub sockaddr_rc : Bool → Option Bytes → ℤ → Result AddressError Bytes
unfolding reversed
sockaddr_rc is_little none channel = err bad_address
sockaddr_rc is_little (some raw_mac) channel = do
  guard (length raw_mac == 6) bad_address
  guard (is_channel channel) bad_channel
  ok (family_bytes is_little ++ (reversed raw_mac ++ (channel_byte channel ∷ 0 ∷ [])))

-- What the kernel answers: the error number of `connect`, 0 if there is none, whether the socket is
-- writable before the timeout, and `SO_ERROR`.
pub record Kernel : Type 0 where
  pub is_little : Bool
  pub connect_errno : ℕ
  pub is_writable : Bool
  pub so_error : ℕ
  -- EINPROGRESS, EALREADY, EINTR
  pub pending_errnos : List ℕ

abbrev pub finished : Kernel → Result ConnectError (Unit {0})
finished k = do guard k.is_writable timed_out; guard (k.so_error == 0) (os_error k.so_error); ok tt

abbrev pub connecting : Kernel → Result ConnectError (Unit {0})
connecting k =
    if k.connect_errno == 0
    then ok tt
    else (guard (one_of k.connect_errno k.pending_errnos) (os_error k.connect_errno) >> finished k)

abbrev pub addressed : Kernel → Result AddressError Bytes → Result ConnectError (Unit {0})
addressed k (ok addr) = connecting k
addressed k (err e) = err (address e)

-- `connect`
unfoldable pub connect : Kernel → Option Bytes → ℤ → Result ConnectError (Unit {0})
unfolding sockaddr_rc
connect k raw_mac channel = addressed k (sockaddr_rc k.is_little raw_mac channel)
