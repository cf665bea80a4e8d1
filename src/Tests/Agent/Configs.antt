-- ===== src/Tests/Agent/Configs.antt =====
-- The theorems on src/labelfab/agent/config.py and the printer factory at concrete inputs.
use labelfab.Common.{◌≡◌, ◌↔◌, ◌&&◌, refl, true, ok, err, none, [], ◌∷◌, ◌++◌, string_eq}
use labelfab.Device.Session.{session_setup}
use labelfab.Device.Session.Setup.{sent, query_stream, setting_bytes}
use labelfab.Device.Driver.{is_valid_config}
use labelfab.Agent.Config.{
  Config, Text, default_device, default_tape, default_strip, default_render, is_valid,
}
use labelfab.Agent.Config.Topics.{topic-injective}
use labelfab.Agent.Main.Factory.{driver_config, link_of, mac_required}
use labelfab.Agent.Main.Factory.Accepts.{needs_mac, make_printer_factory-accepts}

abbrev shop : Config
shop = record {
  agent = record {
    printer_id = b'd' ∷ b'3' ∷ b'0' ∷ [];
    topic_prefix = b's' ∷ [];
    spool_dir = none;
  };
  mqtt = record { host = ""; transport = "tcp"; password = []; qos = 1 };
  device = default_device;
  tape = default_tape;
  strip = default_strip;
  render = default_render;
}

abbrev jobs_leaf : Text
jobs_leaf = b'j' ∷ []

topic-injective_example : (shop.agent.printer_id ≡ shop.agent.printer_id) × (jobs_leaf ≡ jobs_leaf)
unfolding is_valid
topic-injective_example = topic-injective shop shop jobs_leaf jobs_leaf refl refl refl refl

make_printer_factory-accepts_example :
    let d = driver_config shop in
    (is_valid_config d ≡ true)
    × (sent (session_setup d.density d.batch_session_queries d.paper_type)
        ≡ ok (query_stream ++ setting_bytes 11 1))
    × ((link_of default_device ≡ err mac_required)
        ↔ ((needs_mac "afbluetooth" && string_eq.beq "" "") ≡ true))
unfolding is_valid
make_printer_factory-accepts_example = make_printer_factory-accepts shop refl
