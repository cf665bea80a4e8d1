-- ===== src/Tests/Device.antt =====
-- The theorems on src/labelfab/device at concrete inputs.
mod Waits
use labelfab.Common.{
  replicate, zero, suc, err, ℕ, ◌*◌, ◌≤◌, ◌≡◌, ◌↔◌, refl, true, false, List, [], ◌∷◌, ◌++◌, map,
  none, some, string_eq, dict_get, length, arith, ok, pos,
}
use labelfab.Device.Protocol.{Bytes, call, value_bytes}
use labelfab.Device.Session.{session_setup}
use labelfab.Device.Session.Setup.{sent, query_stream, setting_bytes, session_setup-sent}
use labelfab.Device.Framing.{print_preamble}
use labelfab.Device.Protocol.{paper_gap}
use labelfab.Device.Decode.{find_from, find_frames, decode}
use labelfab.Device.Decode.Captures.{decode-print_preamble}
use labelfab.Device.Framing.Preamble.{IsPrintable, preamble_bytes, print_preamble_iff}
use labelfab.Device.Tags.{int, fixed, length_prefixed, version, hex_upper, tag_spec, spec_of, tags}
use labelfab.Device.Parser.{StatusFrame, StatusParser, need, scan, feed}
use labelfab.Device.Parser.Chunks.{lenient, feed_pieces, feed-pieces}
use labelfab.Device.Parser.Frames.{Message, IsMessage, wires, message_frame, feed-wires}
use labelfab.Device.Parser.Pending.{feed-pending}
use labelfab.Device.State.{DeviceState}
use labelfab.Device.Feedback.{DeviceFeedback, new_feedback, ingest}
use labelfab.Device.Feedback.Pieces.{then_ingest, ingest-append}
use labelfab.Device.Raster.{DeviceRaster}
use labelfab.Device.Errors.{config_error}
use labelfab.Device.Rfcomm.{Kernel}
use labelfab.Device.Sockets
use labelfab.Device.Sockets.{Peer, device, broke, timeout, open_link}
use labelfab.Device.Sockets.Descriptors.{
  Op, open_to, send, shut, apply_all, IsBalanced, IsAddress, apply_all-IsBalanced,
  open_link-config_error_iff,
}
use labelfab.Device.Ble
use labelfab.Device.Ble.{Fate, acknowledged, unacknowledged, packet_size}
use labelfab.Device.Ble.Packets.{Sent, write-Sent}
use labelfab.Device.Transport.{Transport}
use labelfab.Device.Driver.{D30Config, print_raster}
use labelfab.Device.Driver.Streams.{Wrote, feed_bytes, print_raster-Wrote}

abbrev idle_parser : StatusParser
idle_parser = lenient [] []

abbrev firmware_report : Message
firmware_report = record {
  tag = 0x07;
  spec = tag_spec "firmware" (fixed 3) version;
  payload = 2 ∷ 0 ∷ 26 ∷ [];
}

abbrev uid_report : Message
uid_report = record {
  tag = 0x99;
  spec = tag_spec "consumable_uid" length_prefixed hex_upper;
  payload = 0xab ∷ 0x1a ∷ [];
}

firmware_report-IsMessage : IsMessage firmware_report
unfolding spec_of tags dict_get
firmware_report-IsMessage = record { known = refl; sized = refl }

uid_report-IsMessage : IsMessage uid_report
unfolding spec_of tags dict_get
uid_report-IsMessage = record { known = refl; sized = omega arith }

feed-pieces_example :
    feed_pieces idle_parser (0x1a ∷ []) ((0x07 ∷ 2 ∷ []) ∷ (0 ∷ 26 ∷ 0x1a ∷ []) ∷ [])
    ≡ feed idle_parser (0x1a ∷ 0x07 ∷ 2 ∷ 0 ∷ 26 ∷ 0x1a ∷ [])
feed-pieces_example =
    feed-pieces idle_parser (0x1a ∷ []) ((0x07 ∷ 2 ∷ []) ∷ (0 ∷ 26 ∷ 0x1a ∷ []) ∷ []) refl

feed-wires_example :
    feed idle_parser (wires (firmware_report ∷ uid_report ∷ []))
    ≡ ok (map message_frame (firmware_report ∷ uid_report ∷ []), idle_parser)
feed-wires_example =
    feed-wires idle_parser (firmware_report ∷ uid_report ∷ []) refl refl
      (firmware_report-IsMessage, (uid_report-IsMessage, tt))

abbrev density_packet : Bytes
density_packet = 0x1f ∷ 0x11 ∷ 0x02 ∷ 4 ∷ []

print_preamble_iff_example :
    (print_preamble 12 300 (some 4) 2 12 0x0A ≡ ok (preamble_bytes 12 300 (some 4) 2 12 0x0A)) ↔ (
      IsPrintable 12 300 (some 4) 2 12 0x0A
      × (preamble_bytes 12 300 (some 4) 2 12 0x0A ≡ preamble_bytes 12 300 (some 4) 2 12 0x0A))
print_preamble_iff_example =
    print_preamble_iff 12 300 (some 4) 2 12 0x0A (preamble_bytes 12 300 (some 4) 2 12 0x0A)

abbrev strip_config : D30Config
strip_config = record {
  chunk_bytes = 2;
  density = 4;
  paper_type = 0x0B;
  feed_lines = 23;
  head_width_bytes = 12;
  batch_session_queries = false;
}

abbrev column : DeviceRaster
column = record { width_px = 8; height_px = 3; pixels = 0xff ∷ 0x81 ∷ 0xff ∷ [] }

-- The link breaks after eight bytes.
abbrev weak_link : Transport
weak_link = record {
  buf = [];
  flushes = [];
  writes = [];
  opened = 1;
  closed = 0;
  is_open = true;
  fail_after_bytes = some 8;
  feedback = new_feedback;
}

print_raster-Wrote_example :
    Wrote
      (preamble_bytes 1 3 (some 4) 1 12 0x0B ++ (column.pixels ++ feed_bytes strip_config))
      weak_link
      (print_raster strip_config true column 1 none weak_link)
unfolding print_preamble call value_bytes
print_raster-Wrote_example =
    print_raster-Wrote strip_config column 1 none (preamble_bytes 1 3 (some 4) 1 12 0x0B) weak_link
      refl (omega arith) (omega arith) (omega arith) refl

abbrev jammed : DeviceState
jammed = record {
  acks = 0;
  frames = [];
  values = ("material_error", int 3) ∷ [];
  prints_completed = 0;
}

abbrev cleared_frame : StatusFrame
cleared_frame = record { tag = 0x3f; name = "material_error"; raw = 0 ∷ []; value = some (int 0) }

abbrev quiet_feedback : DeviceFeedback
quiet_feedback = record { state = jammed; parser = idle_parser }

-- A frame of one byte by two lines on die-cut tape, then the vendor's feed.
decode-print_preamble_example :
    (offset : ℕ) × (decode
        (preamble_bytes 1 2 (some 1) 1 12 paper_gap ++ ((0xaa ∷ 0x55 ∷ []) ++ (0x1b ∷ [])))
      ≡ ok (record { width_px = 1 * 8; height_px = 2; offset = offset; body = 0xaa ∷ 0x55 ∷ [] }))
unfolding print_preamble call value_bytes find_frames find_from
decode-print_preamble_example =
    decode-print_preamble 1 2 (some 1) 1 12 paper_gap (preamble_bytes 1 2 (some 1) 1 12 paper_gap)
      (0xaa ∷ 0x55 ∷ []) (0x1b ∷ []) refl refl refl

-- A malformed address of two bytes, and a well-formed one.
abbrev kernel : Kernel
kernel = record {
  is_little = true;
  connect_errno = 115;
  is_writable = true;
  so_error = 0;
  pending_errnos = 115 ∷ 114 ∷ 4 ∷ [];
}

abbrev odd_peer : Peer
odd_peer = record {
  is_linux = true;
  socket_errno = none;
  raw_mac = some (1 ∷ 2 ∷ []);
  channel = pos 1;
  kernel = kernel;
  read = true;
}

abbrev good_peer : Peer
good_peer = record odd_peer { raw_mac = some (1 ∷ 2 ∷ 3 ∷ 4 ∷ 5 ∷ 6 ∷ []) }

abbrev fresh_link : Sockets.Link
fresh_link = record {
  is_open = false;
  reading = false;
  made = 0;
  closed = 0;
  sent = [];
  feedback = new_feedback;
}

abbrev ops : List Op
ops =
    open_to odd_peer
    ∷ open_to good_peer
    ∷ send [] (7 ∷ 8 ∷ []) (broke 1 (timeout 110))
    ∷ shut
    ∷ open_to good_peer
    ∷ []

apply_all-IsBalanced_example :
    let m = apply_all ops fresh_link in
    IsBalanced m
    × ((Sockets.close m).is_open ≡ false)
    × ((Sockets.close m).made ≡ (Sockets.close m).closed)
apply_all-IsBalanced_example = apply_all-IsBalanced ops fresh_link (refl, λ e. refl)

abbrev ble_link : Ble.Link
ble_link = record {
  has_client = true;
  has_loop = true;
  has_ack = true;
  is_acked = false;
  feedback = new_feedback;
  packets = [];
}

-- The second packet is not acknowledged in time.
abbrev fate_of : ℕ → Fate
fate_of zero = acknowledged
fate_of (suc n) = unacknowledged

abbrev long_input : Bytes
long_input = replicate 45 9

write-Sent_example :
    Sent
      (packet_size (some 23))
      long_input
      ble_link
      (Ble.write true (some 23) true false fate_of long_input ble_link)
write-Sent_example = write-Sent true (some 23) true false fate_of long_input ble_link
