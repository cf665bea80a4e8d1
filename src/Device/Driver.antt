-- ===== src/Device/Driver.antt =====
-- src/labelfab/device/d30.py: `PhomemoD30` over a transport. Its pauses, among them the wait for the
-- completion frame, change nothing but the time.
pub mod Streams
use labelfab.Common.{
  ℕ, zero, suc, Bool, true, false, ◌&&◌, List, [], ◌∷◌, ◌++◌, Option, none, some, length, take,
  drop, ltb, leb, ◌==◌, if◌then◌else◌, Result, ok, err, ℤ, pos,
}
use labelfab.Device.Protocol.{
  Bytes, ValueError, call, densities, paper_types, one_of, paper_continuous, max_frame_lines,
}
use labelfab.Device.Commands
use labelfab.Device.Session.{session_setup, telemetry_refresh}
use labelfab.Device.Framing.{print_preamble}
use labelfab.Device.Errors.{not_ready, geometry_error}
use labelfab.Device.Raster.{DeviceRaster, width_bytes}
use labelfab.Device.Transport.{
  Transport, DriverError, device, value, zero_step, Io, ◌>>◌, pass, raise, write, flush, open_link,
}

-- `D30Config`, without the timings.
pub record D30Config : Type 0 where
  pub chunk_bytes : ℕ
  pub density : ℕ
  pub paper_type : ℕ
  pub feed_lines : ℕ
  pub head_width_bytes : ℕ
  pub batch_session_queries : Bool

-- `__post_init__` raises where this is false.
unfoldable pub is_valid_config : D30Config → Bool
is_valid_config c =
    one_of c.density densities && (one_of c.paper_type paper_types && leb c.feed_lines 0xFF)

abbrev pub lift : Result ValueError Bytes → (Bytes → Io (Unit {0})) → Io (Unit {0})
lift (ok b) k = k b
lift (err e) k = raise (value e)

abbrev pub lift_packets :
    Result ValueError (List Bytes) → (List Bytes → Io (Unit {0})) → Io (Unit {0})
lift_packets (ok bs) k = k bs
lift_packets (err e) k = raise (value e)

-- `self.transport.write(packet)`, then `self.transport.flush()`
unfoldable pub write_packet : Bytes → Io (Unit {0})
unfolding write flush
write_packet b = write b >> flush

unfoldable pub write_packets : List Bytes → Io (Unit {0})
unfolding write_packet
write_packets [] = pass
write_packets (b ∷ bs) = write_packet b >> write_packets bs

-- `if not packet: return`
abbrev pub write_unless_empty : Bytes → Io (Unit {0})
write_unless_empty [] = pass
write_unless_empty (b ∷ bs) = write_packet (b ∷ bs)

unfoldable pub refresh_telemetry : Io (Unit {0})
unfolding write_packet
refresh_telemetry = lift telemetry_refresh (λ b. write_unless_empty b)

-- The loop over the chunks of `n + 1` bytes: each round takes a byte at least, so as many rounds as
-- there are bytes are enough.
unfoldable pub write_chunks : ℕ → ℕ → Bytes → Io (Unit {0})
unfolding write_packet
write_chunks n fuel [] = pass
write_chunks n zero (b ∷ bs) = pass
write_chunks n (suc fuel) (b ∷ bs) =
    write_packet (take (suc n) (b ∷ bs)) >> write_chunks n fuel (drop (suc n) (b ∷ bs))

abbrev pub write_body : ℕ → Bytes → Io (Unit {0})
write_body zero body = raise zero_step
write_body (suc n) body = write_chunks n (length body) body

module _ (config : D30Config) where
  -- `connect`; the driver counts as initialised when it returns.
  unfoldable pub connect : Io (Unit {0})
  unfolding open_link write_packets
  connect =
      open_link
      >> lift_packets (session_setup config.density config.batch_session_queries config.paper_type)
          (λ packets. write_packets packets)

  abbrev pub is_feeding : Bool
  is_feeding = config.paper_type == paper_continuous && ltb 0 config.feed_lines

  abbrev pub write_feed : Bool → Io (Unit {0})
  write_feed false = pass
  write_feed true =
      lift (call Commands.print_and_feed (pos config.feed_lines ∷ [])) (λ b. write_packet b)

  -- `density if density is not None else self.config.density`
  abbrev pub or_config : Option ℕ → ℕ
  or_config none = config.density
  or_config (some d) = d

  abbrev pub preamble_of : DeviceRaster → ℕ → Option ℕ → Result ValueError Bytes
  preamble_of raster copies density =
      print_preamble (width_bytes raster) raster.height_px (some (or_config density)) copies
        config.head_width_bytes config.paper_type

  abbrev pub write_frame : DeviceRaster → Bytes → Io (Unit {0})
  write_frame raster preamble =
      write_packet preamble
      >> (write_body config.chunk_bytes raster.pixels >> write_feed is_feeding)

  -- `print_raster`; the first argument is `_initialised`.
  unfoldable pub print_raster : Bool → DeviceRaster → ℕ → Option ℕ → Io (Unit {0})
  unfolding write_packet write_chunks
  print_raster is_initialised raster copies density t =
      if t.is_open && is_initialised
      then (if leb raster.height_px max_frame_lines
          then lift (preamble_of raster copies density) (λ b. write_frame raster b) t
          else (err (device geometry_error), t))
      else (err (device not_ready), t)
