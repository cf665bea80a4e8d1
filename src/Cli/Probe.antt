-- ===== src/Cli/Probe.antt =====
-- src/labelfab/cli.py: `cmd_probe` over the fake transport, with the exit status of `main`. A pace only
-- changes the time. The arguments are as argparse hands them on, sizes and counts not negative and an
-- absent one 0 or no list.
pub mod Keeps
pub mod Links
use labelfab.Common.{
  ℕ, zero, suc, ◌*◌, ◌%◌, Bool, true, false, List, [], ◌∷◌, ◌++◌, Option, none, some, ◌==◌, ltb,
  if◌then◌else◌, Result, ok, err,
}
use labelfab.Contract.{TapeKind}
use labelfab.Agent.Main.Factory.{paper_of}
use labelfab.Device.Protocol.{Bytes, call, density_medium}
use labelfab.Device.Commands
use labelfab.Device.Feedback.{new_feedback}
use labelfab.Device.Raster.{DeviceRaster, is_well_shaped}
use labelfab.Device.Patterns.{PatternError, bad_shape, Pencil, self_test, head_width_probe}
use labelfab.Device.Transport.{Transport, DriverError, Io, close}
use labelfab.Device.Driver.{D30Config, lift, write_packet, connect, print_raster}

pub record ProbeArgs : Type 0 where
  pub tape : TapeKind
  pub width_px : ℕ
  pub length_px : ℕ
  pub pace_sweep : List ℕ
  pub strip : ℕ
  pub measure_waste : Bool
  pub self_test : Bool
  pub width_sweep : List ℕ
  pub length_sweep : List ℕ
  pub head_width : Bool

pub data ProbeError : Type 0 where
  driver : DriverError → ProbeError
  pattern : PatternError → ProbeError

abbrev pub Run : Type 0
Run = Transport → Result ProbeError (Unit {0}) × Transport

infixl 5 ◌>>>◌
abbrev pub ◌>>>◌ : Run → Run → Run
(m >>> k) t = elim (m t).0 [ ok a ↦ k (m t).1 | err e ↦ (err e, (m t).1) ]

abbrev pub driving : Result DriverError (Unit {0}) → Result ProbeError (Unit {0})
driving (ok u) = ok u
driving (err e) = err (driver e)

abbrev pub by_driver : Io (Unit {0}) → Run
by_driver m t = (driving (m t).0, (m t).1)

-- `FakeTransport()`
abbrev pub fake_transport : Transport
fake_transport = record {
  buf = [];
  flushes = [];
  writes = [];
  opened = 0;
  closed = 0;
  is_open = false;
  fail_after_bytes = none;
  feedback = new_feedback;
}

abbrev pub config_of : TapeKind → D30Config
config_of tape = record {
  chunk_bytes = 4096;
  density = density_medium;
  paper_type = paper_of tape;
  feed_lines = 23;
  head_width_bytes = 12;
  batch_session_queries = false;
}

-- `raster.data * copies`
abbrev pub repeated : ℕ → Bytes → Bytes
repeated zero b = []
repeated (suc n) b = b ++ repeated n b

-- `_stack`
unfoldable pub stack : DeviceRaster → ℕ → Result PatternError DeviceRaster
stack raster copies =
    let r : DeviceRaster = record {
      width_px = raster.width_px;
      height_px = raster.height_px * copies;
      pixels = repeated copies raster.pixels;
    } in
    if is_well_shaped r then ok r else err bad_shape

abbrev pub idle : Run
idle t = (ok tt, t)

abbrev pub raised : PatternError → Run
raised e t = (err (pattern e), t)

-- What goes on with a pattern that is built.
abbrev pub given : Result PatternError DeviceRaster → (DeviceRaster → Run) → Run
given (ok raster) k = k raster
given (err e) k = raised e

pub data Mode : Type 0 where
  strip_mode self_test_mode width_mode length_mode head_mode no_mode : Mode

-- What is left: the status or the exception, the links that were used, and the capture.
pub record Outcome : Type 0 where
  pub status : Result ProbeError ℕ
  pub links : List Transport
  pub capture : Option Bytes

abbrev pub is_given : List ℕ → Bool
is_given [] = false
is_given (n ∷ ns) = true

module _ (p : Pencil) (args : ProbeArgs) where
  abbrev pub config : D30Config
  config = config_of args.tape

  abbrev pub printed : DeviceRaster → Run
  printed raster = by_driver (print_raster config true raster 1 none)

  abbrev pub test_print : ℕ → ℕ → Run
  test_print w h = given (self_test p w h) printed

  abbrev pub times : ℕ → Run → Run
  times zero m = idle
  times (suc n) m = m >>> times n m

  abbrev pub if_wasting : Bool → Run → Run
  if_wasting true m = m
  if_wasting false m = idle

  abbrev pub strip_print : Run
  strip_print = given (self_test p args.width_px args.length_px) (λ unit_raster.
      given (stack unit_raster args.strip) printed
      >>> if_wasting args.measure_waste (times args.strip (printed unit_raster)))

  -- `for width in …`: a width that is not whole bytes is left out.
  abbrev pub width_prints : List ℕ → Run
  width_prints [] = idle
  width_prints (w ∷ ws) =
      let rest = width_prints ws in if w % 8 == 0 then test_print w 120 >>> rest else rest

  abbrev pub length_prints : List ℕ → Run
  length_prints [] = idle
  length_prints (n ∷ ns) = test_print args.width_px n >>> length_prints ns

  abbrev pub head_print : Run
  head_print =
      by_driver (lift (call Commands.label_width []) (λ b. write_packet b))
      >>> given (head_width_probe p args.width_px 8) printed

  abbrev pub mode_of : Mode
  mode_of =
      if ltb 0 args.strip
      then strip_mode
      else if args.self_test
      then self_test_mode
      else if is_given args.width_sweep
      then width_mode
      else if is_given args.length_sweep
      then length_mode
      else if args.head_width
      then head_mode
      else no_mode

  abbrev pub prints_of : Mode → Run
  prints_of strip_mode = strip_print
  prints_of self_test_mode = test_print args.width_px args.length_px
  prints_of width_mode = width_prints args.width_sweep
  prints_of length_mode = length_prints args.length_sweep
  prints_of head_mode = head_print
  prints_of no_mode = idle

  -- `with printer:`, on a link of its own: closed however the body ends, but not when connecting fails.
  abbrev pub closing :
      Result ProbeError (Unit {0}) × Transport → Result ProbeError (Unit {0}) × Transport
  closing (r, t) = (r, close t)

  unfoldable pub with_printer : Run → Run
  unfolding connect close
  with_printer body t =
      let connected = by_driver (connect config) t in
      elim connected.0 [ ok a ↦ closing (body connected.1) | err e ↦ (err e, connected.1) ]

  -- The passes of the sweep, each with a printer of its own.
  abbrev pub pace_passes : List ℕ → Outcome
  pace_passes [] = record { status = ok 0; links = []; capture = none }
  pace_passes (f ∷ fs) =
      let one = with_printer (test_print args.width_px 3200) fake_transport in
      let rest = pace_passes fs in
      elim one.0 [
        | ok a ↦ record rest { links = one.1 ∷ rest.links }
        | err e ↦ record { status = err e; links = one.1 ∷ []; capture = none }
      ]

  abbrev pub ended : Mode → Result ProbeError (Unit {0}) → Transport → Outcome
  ended no_mode (ok u) t = record { status = ok 2; links = t ∷ []; capture = none }
  ended m (ok u) t = record { status = ok 0; links = t ∷ []; capture = some t.buf }
  ended m (err e) t = record { status = err e; links = t ∷ []; capture = none }

  abbrev pub probe_in : Mode → Outcome
  probe_in m = let one = with_printer (prints_of m) fake_transport in ended m one.0 one.1

  unfoldable pub cmd_probe : Outcome
  unfolding with_printer
  cmd_probe = if is_given args.pace_sweep then pace_passes args.pace_sweep else probe_in mode_of

-- `main`: an exception is reported with status 1.
abbrev pub exit_status : Result ProbeError ℕ → ℕ
exit_status (ok n) = n
exit_status (err e) = 1
