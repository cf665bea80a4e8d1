-- ===== src/Agent/Main/Factory.antt =====
-- src/labelfab/agent/__main__.py: `make_printer_factory`, from the configuration to the settings of the
-- driver and the transport of a printer.
pub mod Accepts
use labelfab.Common.{
  ℕ, Bool, true, false, ◌&&◌, ◌||◌, not, List, [], ◌∷◌, ◌++◌, Option, none, some, String, string_eq,
  ◌≡◌, ◌≢◌, ◌↔◌, refl, ◌∙◌, ap, arith, leb, if◌then◌else◌, Result, ok, err, Bool-cases, inl, inr,
}
use labelfab.Contract.{TapeKind, continuous, gap}
use labelfab.Device.Protocol.{
  Bytes, ValueError, bad_density, bad_paper_type, paper_continuous, paper_gap, paper_types,
  densities, one_of,
}
use labelfab.Device.Session.{session_setup}
use labelfab.Device.Session.Setup.{sent, session_setup-sent, query_stream, setting_bytes}
use labelfab.Device.Driver.{D30Config, is_valid_config}
use labelfab.Agent.Config.{Config, DeviceSection, is_valid, is_valid_device}

abbrev pub paper_of : TapeKind → ℕ
paper_of continuous = paper_continuous
paper_of gap = paper_gap

-- `dcfg`, with the defaults of `D30Config` for the rest
unfoldable pub driver_config : Config → D30Config
driver_config c = record {
  chunk_bytes = 4096;
  density = c.device.density;
  paper_type = paper_of c.tape.kind;
  feed_lines = c.device.feed_lines;
  head_width_bytes = 12;
  batch_session_queries = false;
}

pub data Link : Type 0 where
  fake : Link
  serial : String → Link
  ble : String → String → Option String → Link
  afbluetooth : String → ℕ → Link

pub data SystemExit : Type 0 where
  mac_required : SystemExit

-- `config.device.ble_adapter or None`
abbrev pub unless_blank : String → Option String
unless_blank s = if string_eq.beq s "" then none else some s

abbrev pub with_mac : String → Link → Result SystemExit Link
with_mac mac l = if string_eq.beq mac "" then err mac_required else ok l

-- The transport that `factory` makes.
unfoldable pub link_of : DeviceSection → Result SystemExit Link
link_of d =
    if string_eq.beq d.transport "fake"
    then ok fake
    else if string_eq.beq d.transport "serial"
    then ok (serial d.serial_port)
    else if string_eq.beq d.transport "ble"
    then with_mac d.mac (ble d.mac d.ble_write_uuid (unless_blank d.ble_adapter))
    else with_mac d.mac (afbluetooth d.mac d.channel)
