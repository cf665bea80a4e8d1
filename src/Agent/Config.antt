-- ===== src/Agent/Config.antt =====
-- src/labelfab/agent/config.py: the sections of the configuration with their defaults and checks, the
-- topics, and the password from a credential. A text is its code points where it is looked into.
-- What pydantic-settings reads from the TOML file and the environment is a value of `Config`.
pub mod Topics
use labelfab.Common.{
  ℕ, Bool, true, false, ◌&&◌, ◌||◌, not, List, [], ◌∷◌, ◌++◌, Option, none, some, String, string_eq,
  leb, ltb, if◌then◌else◌,
}
use labelfab.Contract.{LengthMm, auto, TapeKind, continuous}
use labelfab.Device.Protocol.{density_light, vendor_feed_lines, densities, one_of}

abbrev pub Text : Type 0
Text = List ℕ

pub record AgentSection : Type 0 where
  pub printer_id : Text
  pub topic_prefix : Text
  pub spool_dir : Option String

pub record MqttSection : Type 0 where
  pub host : String
  pub transport : String
  pub password : Text
  pub qos : ℕ

-- The pace factor and the interval are whole numbers of thousandths.
pub record DeviceSection : Type 0 where
  pub transport : String
  pub mac : String
  pub channel : ℕ
  pub serial_port : String
  pub ble_write_uuid : String
  pub ble_adapter : String
  pub raster_width_px : ℕ
  pub pace_factor : ℕ
  pub density : ℕ
  pub wake_dummy_feed : Bool
  pub feed_lines : ℕ
  pub probe_on_start : Bool
  pub probe_interval : ℕ

pub record TapeSection : Type 0 where
  pub width_mm : ℕ
  pub kind : TapeKind
  pub length_mm : LengthMm
  pub rotation : ℕ
  pub mirror : Bool

pub record StripSection : Type 0 where
  pub max_wait : ℕ
  pub max_length_mm : ℕ
  pub max_labels : ℕ
  pub separator_mm : ℕ
  pub discrete_as_strip : Bool

pub record RenderSection : Type 0 where
  pub qr_base_url : Text
  pub qr_quiet_zone : ℕ
  pub threshold : ℕ
  pub preset_aliases : List (String × String)
  pub vertical_flip : Bool

pub record Config : Type 0 where
  pub agent : AgentSection
  pub mqtt : MqttSection
  pub device : DeviceSection
  pub tape : TapeSection
  pub strip : StripSection
  pub render : RenderSection

abbrev pub default_device : DeviceSection
default_device = record {
  transport = "afbluetooth";
  mac = "";
  channel = 1;
  serial_port = "/dev/rfcomm0";
  ble_write_uuid = "0000ff02-0000-1000-8000-00805f9b34fb";
  ble_adapter = "";
  raster_width_px = 96;
  pace_factor = 1200;
  density = density_light;
  wake_dummy_feed = false;
  feed_lines = vendor_feed_lines;
  probe_on_start = true;
  probe_interval = 0;
}

abbrev pub default_tape : TapeSection
default_tape = record {
  width_mm = 1522500;
  kind = continuous;
  length_mm = auto;
  rotation = 270;
  mirror = false;
}

abbrev pub default_strip : StripSection
default_strip = record {
  max_wait = 30000;
  max_length_mm = 30450000;
  max_labels = 24;
  separator_mm = 203000;
  discrete_as_strip = true;
}

abbrev pub default_render : RenderSection
default_render = record {
  qr_base_url = [];
  qr_quiet_zone = 4;
  threshold = 128;
  preset_aliases = [];
  vertical_flip = false;
}

abbrev pub between : ℕ → ℕ → ℕ → Bool
between lo hi n = leb lo n && leb n hi

-- `[a-z0-9]` and `[a-z0-9-]`
abbrev pub is_alnum : ℕ → Bool
is_alnum c = between b'a' b'z' c || between b'0' b'9' c

abbrev pub is_id_char : ℕ → Bool
is_id_char c = is_alnum c || between b'-' b'-' c

unfoldable pub all_id_chars : Text → Bool
all_id_chars [] = true
all_id_chars (c ∷ cs) = is_id_char c && all_id_chars cs

-- The pattern of `printer_id`: `^[a-z0-9][a-z0-9-]*$`
unfoldable pub is_printer_id : Text → Bool
unfolding all_id_chars
is_printer_id [] = false
is_printer_id (c ∷ cs) = is_alnum c && all_id_chars cs

abbrev pub is_one_of : String → List String → Bool
is_one_of s [] = false
is_one_of s (t ∷ ts) = string_eq.beq s t || is_one_of s ts

-- `TRANSPORTS`
abbrev pub transports : List String
transports = "afbluetooth" ∷ "ble" ∷ "serial" ∷ "fake" ∷ []

unfoldable pub is_valid_mqtt : MqttSection → Bool
is_valid_mqtt m = is_one_of m.transport ("tcp" ∷ "websockets" ∷ []) && leb m.qos 2

-- With `_density_is_known`
unfoldable pub is_valid_device : DeviceSection → Bool
is_valid_device d =
    is_one_of d.transport transports && (one_of d.density densities && leb d.feed_lines 255)

unfoldable pub is_valid_tape : TapeSection → Bool
is_valid_tape t = between 609000 1522500 t.width_mm && leb t.rotation 270

unfoldable pub is_valid_strip : StripSection → Bool
is_valid_strip s = between 1 200 s.max_labels

unfoldable pub is_valid_render : RenderSection → Bool
is_valid_render r = between 1 8 r.qr_quiet_zone && leb r.threshold 255

-- Whether the sections pass the checks of their fields.
unfoldable pub is_valid : Config → Bool
unfolding is_printer_id is_valid_mqtt is_valid_device is_valid_tape is_valid_strip is_valid_render
is_valid c =
    is_printer_id c.agent.printer_id
    && (is_valid_mqtt c.mqtt
        && (is_valid_device c.device
            && (is_valid_tape c.tape && (is_valid_strip c.strip && is_valid_render c.render))))

-- `topic`
unfoldable pub topic : Config → Text → Text
topic c leaf = c.agent.topic_prefix ++ (b'/' ∷ (c.agent.printer_id ++ (b'/' ∷ leaf)))

-- What `load` finds outside the file: `$CREDENTIALS_DIRECTORY`, and the text of a file of that folder.
pub record Credentials : Type 0 where
  pub directory : Option Text
  pub read : Text → Option Text
  pub strip : Text → Text

abbrev pub stripped : (Text → Text) → Option Text → Option Text
stripped strip none = none
stripped strip (some t) = some (strip t)

-- `_credential`: an empty name of the folder is none.
unfoldable pub credential : Credentials → Text → Option Text
credential s name = elim s.directory [
  | none ↦ none
  | some [] ↦ none
  | some (c ∷ cs) ↦ stripped s.strip (s.read ((c ∷ cs) ++ (b'/' ∷ name)))
]

abbrev pub with_password : Option Text → MqttSection → MqttSection
with_password none m = m
with_password (some []) m = m
with_password (some (c ∷ cs)) m = record m { password = c ∷ cs }

abbrev pub or_credential : Text → Option Text → MqttSection → MqttSection
or_credential [] found m = with_password found m
or_credential (c ∷ cs) found m = m

-- `load`, after the sources are read: the credential stands in for an empty password.
unfoldable pub load : Credentials → Text → Config → Config
unfolding credential
load s name c = record c { mqtt = or_credential c.mqtt.password (credential s name) c.mqtt }
