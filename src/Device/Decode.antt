-- ===== src/Device/Decode.antt =====
-- src/labelfab/device/decode.py: the frames of a capture. A frame keeps its packed body: turning it into
-- an image and rotating that is Pillow's.
pub mod Captures
use labelfab.Common.{
  ℕ, zero, suc, ◌+◌, ◌-◌, ◌*◌, Bool, true, false, ◌&&◌, List, [], ◌∷◌, length, take, drop, ltb,
  ◌==◌, if◌then◌else◌, Result, ok, err, ◌>>=◌,
}
use labelfab.Device.Protocol.{Bytes}

pub data DecodeError : Type 0 where
  truncated_header : ℕ → DecodeError
  short_body : ℕ → DecodeError
  no_frame : DecodeError
  many_frames : ℕ → DecodeError

-- `Frame`, with the body in place of its image
pub record Frame : Type 0 where
  pub width_px : ℕ
  pub height_px : ℕ
  pub offset : ℕ
  pub body : Bytes

-- Whether the bytes begin with `GS_V0`.
abbrev pub is_header : Bytes → Bool
is_header (a ∷ b ∷ c ∷ d ∷ rest) = a == 0x1d && (b == 0x76 && (c == 0x30 && d == 0x00))
is_header _ = false

-- `find_frames`: the search goes on one byte after each header that it finds.
unfoldable pub find_from : ℕ → Bytes → List ℕ
find_from i [] = []
find_from i (b ∷ bs) =
    let rest = find_from (suc i) bs in if is_header (b ∷ bs) then i ∷ rest else rest

unfoldable pub find_frames : Bytes → List ℕ
unfolding find_from
find_frames stream = find_from 0 stream

-- `stream[start:end]`
abbrev pub slice : Bytes → ℕ → ℕ → Bytes
slice stream start end = take (end - start) (drop start stream)

-- `int.from_bytes(…, "little")`
unfoldable pub from_bytes_little : Bytes → ℕ
from_bytes_little [] = 0
from_bytes_little (b ∷ bs) = b + 256 * from_bytes_little bs

-- The frame whose header is at an offset.
unfoldable pub decode_at : Bytes → ℕ → Result DecodeError Frame
unfolding from_bytes_little
decode_at stream offset =
    let start = offset + 4 + 4 in
    let width_bytes = from_bytes_little (slice stream (offset + 4) (offset + 6)) in
    let height_px = from_bytes_little (slice stream (offset + 6) (offset + 8)) in
    let expected = width_bytes * height_px in
    let body = slice stream start (start + expected) in
    if ltb (length stream) start
    then err (truncated_header offset)
    else if length body == expected
    then ok
        (record { width_px = width_bytes * 8; height_px = height_px; offset = offset; body = body })
    else err (short_body offset)

unfoldable pub decode_all : Bytes → List ℕ → Result DecodeError (List Frame)
unfolding decode_at
decode_all stream [] = ok []
decode_all stream (offset ∷ offsets) = do
  frame ← decode_at stream offset
  frames ← decode_all stream offsets
  ok (frame ∷ frames)

unfoldable pub decode_frames : Bytes → Result DecodeError (List Frame)
unfolding decode_all find_frames
decode_frames stream = decode_all stream (find_frames stream)

abbrev pub only : List Frame → Result DecodeError Frame
only [] = err no_frame
only (f ∷ []) = ok f
only (f ∷ g ∷ fs) = err (many_frames (length (f ∷ g ∷ fs)))

-- `decode`
unfoldable pub decode : Bytes → Result DecodeError Frame
unfolding decode_frames
decode stream = decode_frames stream >>= only
