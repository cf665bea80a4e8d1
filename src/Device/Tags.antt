-- ===== src/Device/Tags.antt =====
-- src/labelfab/device/responses.py: the status tags, their payload lengths and decoders.
pub mod Table
use labelfab.Common.{
  ℕ, ◌+◌, ◌-◌, nat_eq, ◌*◌, ◌/◌, ◌%◌, ◌^◌, Bool, true, false, not, ◌&&◌, List, [], ◌∷◌, ◌++◌, map,
  Option, none, some, String, Dict, dict_get, leb, ltb, ◌==◌, if◌then◌else◌,
}
use labelfab.Device.Protocol.{Bytes}

abbrev pub status_prefix : ℕ
status_prefix = 0x1A

abbrev pub alt_prefix : ℕ
alt_prefix = 0x1B

abbrev pub ack : Bytes
ack = 0x01 ∷ 0x01 ∷ []

pub record PaperState : Type 0 where
  pub raw : ℕ

-- `n & (1 << k)` as a test
abbrev pub has_bit : ℕ → ℕ → Bool
has_bit n k = (n / 2 ^ k) % 2 == 1

abbrev pub paper_ok_bit : PaperState → Bool
paper_ok_bit p = has_bit p.raw 0

pub record Capabilities : Type 0 where
  pub raw : Bytes

-- What a decoder returns. A voltage is kept in hundredths of a volt, the unit of the wire; a text is
-- the list of its code points.
pub data Value : Type 0 where
  int : ℕ → Value
  centi : ℕ → Value
  flag : Bool → Value
  text : List ℕ → Value
  paper : PaperState → Value
  caps : Capabilities → Value
  bytes : Bytes → Value

-- `LENGTH_PREFIXED`, or a number of bytes
pub data PayloadLength : Type 0 where
  length_prefixed : PayloadLength
  fixed : ℕ → PayloadLength

-- The `decode` column of the table; `undecoded` is `None`.
pub data Decoder : Type 0 where
  undecoded first_byte paper_bits version serial_text five_minutes decivolts is_two : Decoder
  feature_bits is_nonzero hex_upper : Decoder

pub record TagSpec : Type 0 where
  pub name : String
  pub length : PayloadLength
  pub decode : Decoder

-- `str(x)` for a byte
unfoldable pub str_byte : ℕ → List ℕ
str_byte n =
    let units : List ℕ = (b'0' + n % 10) ∷ [] in
    let tens : List ℕ = (b'0' + n / 10 % 10) ∷ units in
    if ltb n 10 then units else if ltb n 100 then tens else (b'0' + n / 100) ∷ tens

-- `".".join(str(x) for x in b)`
unfoldable pub version_text : Bytes → List ℕ
unfolding str_byte
version_text [] = []
version_text (b ∷ []) = str_byte b
version_text (b ∷ c ∷ bs) = str_byte b ++ (b'.' ∷ version_text (c ∷ bs))

-- `b.decode("ascii", errors="replace")`
abbrev pub ascii_char : ℕ → ℕ
ascii_char b = if ltb b 128 then b else 0xFFFD

abbrev pub cons_unless_nul : ℕ → List ℕ → List ℕ
cons_unless_nul c (d ∷ ds) = c ∷ d ∷ ds
cons_unless_nul c [] = if c == 0 then [] else c ∷ []

-- `.rstrip("\x00")`
unfoldable pub rstrip_nul : List ℕ → List ℕ
rstrip_nul [] = []
rstrip_nul (c ∷ cs) = cons_unless_nul c (rstrip_nul cs)

abbrev pub hex_digit : ℕ → ℕ
hex_digit n = if ltb n 10 then b'0' + n else b'A' + (n - 10)

-- `b.hex().upper()`
unfoldable pub hex_text : Bytes → List ℕ
hex_text [] = []
hex_text (b ∷ bs) = hex_digit (b / 16) ∷ hex_digit (b % 16) ∷ hex_text bs

-- `int.from_bytes(b, "big")`
unfoldable pub from_bytes_big : ℕ → Bytes → ℕ
from_bytes_big acc [] = acc
from_bytes_big acc (b ∷ bs) = from_bytes_big (acc * 256 + b) bs

abbrev pub first : (ℕ → Value) → Bytes → Option Value
first f [] = none
first f (b ∷ bs) = some (f b)

-- `spec.decode(payload)`; `none` is the `IndexError` of `b[0]` on an empty payload, or no decoder.
-- `StatusParser` treats the two alike.
unfoldable pub decode : Decoder → Bytes → Option Value
unfolding version_text rstrip_nul hex_text from_bytes_big
decode undecoded b = none
decode first_byte b = first (λ x. int x) b
decode paper_bits b = first (λ x. paper (record { raw = x })) b
decode version b = some (text (version_text b))
decode serial_text b = some (text (rstrip_nul (map ascii_char b)))
decode five_minutes b = first (λ x. int (x * 5)) b
decode decivolts b = some (centi (from_bytes_big 0 b))
decode is_two b = first (λ x. flag (x == 2)) b
decode feature_bits b = some (caps (record { raw = b }))
decode is_nonzero b = first (λ x. flag (not (x == 0))) b
decode hex_upper b = some (text (hex_text b))

abbrev pub tag_spec : String → PayloadLength → Decoder → TagSpec
tag_spec name length decode = record { name = name; length = length; decode = decode }

-- `TAGS`
unfoldable pub tags : Dict ℕ TagSpec
tags =
    (0x03, tag_spec "hot_state" (fixed 1) first_byte)
    ∷ (0x04, tag_spec "battery" (fixed 1) first_byte)
    ∷ (0x05, tag_spec "cover_state" (fixed 1) first_byte)
    ∷ (0x06, tag_spec "paper_state" (fixed 1) paper_bits)
    ∷ (0x07, tag_spec "firmware" (fixed 3) version)
    ∷ (0x08, tag_spec "serial" (fixed 15) serial_text)
    ∷ (0x09, tag_spec "auto_power" (fixed 1) five_minutes)
    ∷ (0x0a, tag_spec "crc32" (fixed 4) undecoded)
    ∷ (0x0b, tag_spec "print_cancelled" (fixed 1) undecoded)
    ∷ (0x0c, tag_spec "label_type" (fixed 1) first_byte)
    ∷ (0x0e, tag_spec "p1000_state" (fixed 1) undecoded)
    ∷ (0x0f, tag_spec "print_complete" (fixed 1) first_byte)
    ∷ (0x11, tag_spec "hardware_version" (fixed 3) version)
    ∷ (0x15, tag_spec "consumable_remaining" (fixed 3) undecoded)
    ∷ (0x16, tag_spec "reset_paper_ok" (fixed 4) undecoded)
    ∷ (0x17, tag_spec "bt_chip_type" (fixed 1) first_byte)
    ∷ (0x20, tag_spec "unknown_20" (fixed 1) undecoded)
    ∷ (0x2d, tag_spec "sensor_info" (fixed 13) undecoded)
    ∷ (0x2f, tag_spec "voltage_v" (fixed 2) decivolts)
    ∷ (0x31, tag_spec "rfid_number" (fixed 3) undecoded)
    ∷ (0x35, tag_spec "charging" (fixed 1) is_two)
    ∷ (0x3b, tag_spec "capabilities" (fixed 4) feature_bits)
    ∷ (0x3c, tag_spec "unknown_3c" (fixed 0) undecoded)
    ∷ (0x3e, tag_spec "print_busy" (fixed 1) is_nonzero)
    ∷ (0x3f, tag_spec "material_error" (fixed 1) first_byte)
    ∷ (0x40, tag_spec "rfid_media" (fixed 15) undecoded)
    ∷ (0x4b, tag_spec "date_format" (fixed 2) undecoded)
    ∷ (0x4e, tag_spec "firmware_write_result" (fixed 7) undecoded)
    ∷ (0x5e, tag_spec "power_key_type" (fixed 1) first_byte)
    ∷ (0x99, tag_spec "consumable_uid" length_prefixed hex_upper)
    ∷ (0xa1, tag_spec "low_battery_a1" (fixed 0) undecoded)
    ∷ (0xa2, tag_spec "low_battery_a2" (fixed 0) undecoded)
    ∷ (0xa3, tag_spec "low_battery" (fixed 1) first_byte)
    ∷ []

-- `TAGS.get(tag)`
unfoldable pub spec_of : ℕ → Option TagSpec
spec_of tag = dict_get tag tags

-- `Capabilities.d0`
abbrev pub d0 : Capabilities → ℕ
d0 c = head_or_zero c.raw
  where
    head_or_zero : Bytes → ℕ
    head_or_zero [] = 0
    head_or_zero (b ∷ bs) = b

abbrev pub supports_concentration : Capabilities → Bool
supports_concentration c = has_bit (d0 c) 0

abbrev pub supports_velocity : Capabilities → Bool
supports_velocity c = has_bit (d0 c) 1

abbrev pub supports_grayscale : Capabilities → Bool
supports_grayscale c = has_bit (d0 c) 2

abbrev pub supports_compression : Capabilities → Bool
supports_compression c = has_bit (d0 c) 3

abbrev pub supports_minilzo : Capabilities → Bool
supports_minilzo c = has_bit (d0 c) 4

abbrev pub supports_double_dpi : Capabilities → Bool
supports_double_dpi c = has_bit (d0 c) 6
