-- ===== src/Device/Framing.antt =====
-- src/labelfab/device/protocol.py and escpos.py: the `GS v 0` header and what precedes the raster.
pub mod Preamble
use labelfab.Common.{
  ℕ, ◌-◌, ◌/◌, ◌%◌, Bool, ◌&&◌, not, List, [], ◌∷◌, ◌++◌, Option, none, some, leb, ltb, ◌==◌,
  if◌then◌else◌, Result, ok, err, ◌>>=◌, ◌>>◌, guard, ℤ, pos,
}
use labelfab.Device.Protocol.{
  Bytes, ValueError, bad_density, width_out_of_range, height_out_of_range, copies_below_one,
  copies_too_many, copies_need_gap, Command, call, densities, one_of, paper_gap, paper_continuous,
  max_frame_lines, max_frame_bytes_per_line,
}
use labelfab.Device.Commands
use labelfab.Device.Session.{check_paper_type}

-- `n.to_bytes(2, "little")`, for a number that the caller has checked against 0xFFFF.
abbrev pub to_bytes_2 : ℕ → Bytes
to_bytes_2 n = (n % 256) ∷ (n / 256) ∷ []

unfoldable pub raster_header : ℕ → ℕ → Result ValueError Bytes
raster_header width_bytes height_px = do
  guard (ltb 0 width_bytes && leb width_bytes max_frame_bytes_per_line)
      (width_out_of_range width_bytes)
  guard (ltb 0 height_px && leb height_px max_frame_lines) (height_out_of_range height_px)
  ok (Commands.print_image.opcode ++ (to_bytes_2 width_bytes ++ to_bytes_2 height_px))

-- `max(0, head - width)`: subtraction on ℕ stops at 0.
unfoldable pub left_margin_bytes : ℕ → ℕ → ℕ
left_margin_bytes width_bytes head_width_bytes = head_width_bytes - width_bytes

-- `if density is not None: …`
unfoldable pub density_part : Option ℕ → ℕ → Result ValueError Bytes
density_part none paper_type = ok []
density_part (some density) paper_type = do
  guard (one_of density densities) (bad_density density)
  tape ← call Commands.paper_type (pos paper_type ∷ [])
  burn ← call Commands.print_density (pos density ∷ [])
  ok (tape ++ burn)

-- `if paper_type == PAPER_GAP: …`, before `ESC @`
unfoldable pub margin_part : ℕ → ℕ → ℕ → ℕ → Result ValueError Bytes
unfolding left_margin_bytes
margin_part paper_type width_bytes head copies =
    if paper_type == paper_gap
    then (do
      margin ← call Commands.left_margin (pos (left_margin_bytes width_bytes head) ∷ [])
      multi ← (if ltb 1 copies then call Commands.print_multi (pos copies ∷ []) else ok [])
      ok (margin ++ multi))
    else ok []

-- `if paper_type == PAPER_GAP: …`, after `ESC @`
unfoldable pub compress_part : ℕ → Result ValueError Bytes
compress_part paper_type =
    if paper_type == paper_gap then call Commands.exit_compress_mode (pos 0 ∷ []) else ok []

unfoldable pub print_preamble : ℕ → ℕ → Option ℕ → ℕ → ℕ → ℕ → Result ValueError Bytes
unfolding check_paper_type density_part margin_part compress_part raster_header
print_preamble width_bytes height_px density copies head paper_type = do
  guard (leb 1 copies) copies_below_one
  guard (leb copies 0xFF) (copies_too_many copies)
  check_paper_type paper_type
  guard (not (paper_type == paper_continuous && ltb 1 copies)) copies_need_gap
  tape ← density_part density paper_type
  margin ← margin_part paper_type width_bytes head copies
  init ← call Commands.init_printer []
  compress ← compress_part paper_type
  header ← raster_header width_bytes height_px
  ok (tape ++ (margin ++ (init ++ (compress ++ header))))

-- escpos.py: the header of the captured Android sequence.
unfoldable pub print_header : ℕ → ℕ → ℕ → Result ValueError Bytes
unfolding left_margin_bytes raster_header
print_header width_bytes height_px head = do
  margin ← call Commands.left_margin (pos (left_margin_bytes width_bytes head) ∷ [])
  header ← raster_header width_bytes height_px
  ok (margin ++ (Commands.init_printer.opcode ++ header))
