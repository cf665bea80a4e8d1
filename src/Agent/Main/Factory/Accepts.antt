-- ===== src/Agent/Main/Factory/Accepts.antt =====
-- Which configurations `make_printer_factory` of src/labelfab/agent/__main__.py can serve.
use labelfab.Common.{
  Bool, true, false, ◌&&◌, not, ◌++◌, String, string_eq, ◌≡◌, ◌↔◌, refl, ◌∙◌, arith, leb, ok, err,
}
use labelfab.Contract.{TapeKind, continuous, gap}
use labelfab.Device.Protocol.{paper_types, densities, one_of}
use labelfab.Device.Session.{session_setup}
use labelfab.Device.Session.Setup.{sent, session_setup-sent, query_stream, setting_bytes}
use labelfab.Device.Driver.{is_valid_config}
use labelfab.Agent.Config.{Config, DeviceSection, is_valid, is_valid_device}
use labelfab.Agent.Main.Factory.{paper_of, driver_config, link_of, mac_required}

-- The two transports that need an address.
abbrev pub needs_mac : String → Bool
needs_mac t = not (string_eq.beq t "fake") && not (string_eq.beq t "serial")

paper_of-known : (k : TapeKind) → one_of (paper_of k) paper_types ≡ true
paper_of-known continuous = refl
paper_of-known gap = refl

device-valid : (c : Config) → is_valid c ≡ true → is_valid_device c.device ≡ true
unfolding is_valid
device-valid c valid = ground arith

density-known :
    (d : DeviceSection)
    → is_valid_device d ≡ true
    → (one_of d.density densities ≡ true) × (leb d.feed_lines 255 ≡ true)
unfolding is_valid_device
density-known d valid = ground arith

link_of_iff :
    (d : DeviceSection)
    → (link_of d ≡ err mac_required) ↔ ((needs_mac d.transport && string_eq.beq d.mac "") ≡ true)
unfolding link_of
link_of_iff d = (λ h. ground arith, λ h. ground arith)

-- With a configuration that passes its checks, the settings of the driver are accepted and the
-- connect-time sequence is built, with the density and the tape type of the configuration; a
-- transport is made unless it needs an address and none is configured: then the process exits.
pub make_printer_factory-accepts :
    (c : Config)
    → is_valid c ≡ true
    → let d = driver_config c in
      (is_valid_config d ≡ true)
      × (sent (session_setup d.density d.batch_session_queries d.paper_type)
          ≡ ok (query_stream ++ setting_bytes (paper_of c.tape.kind) c.device.density))
      × ((link_of c.device ≡ err mac_required)
          ↔ ((needs_mac c.device.transport && string_eq.beq c.device.mac "") ≡ true))
unfolding driver_config is_valid_config
make_printer_factory-accepts c valid =
    let (dense, short) = density-known c.device (device-valid c valid) in
    let paper = paper_of-known c.tape.kind in
    (
      rw (dense, paper, short) refl,
      session_setup-sent c.device.density false (paper_of c.tape.kind) ∙ rw (dense, paper) refl,
      link_of_iff c.device,
    )
