-- ===== src/Device/Commands.antt =====
-- src/labelfab/device/protocol.py: the command tables, with the support level, the danger and the
-- number of arguments of each opcode, and the lists of commands that the driver sends.
use labelfab.Common.{ℕ, List, [], ◌∷◌, ◌++◌, Option, none, some, String}
use labelfab.Device.Protocol.{
  Bytes, Support, verified, reachable, decompiled, Danger, safe, stateful, destructive, Command,
}

abbrev pub ctrl_prefix : Bytes
ctrl_prefix = 0x1f ∷ 0x11 ∷ []

abbrev pub cfg_prefix : Bytes
cfg_prefix = 0x1b ∷ 0x4e ∷ []

abbrev pub ctrl : ℕ → Bytes
ctrl sub = ctrl_prefix ++ (sub ∷ [])

abbrev pub cfg : ℕ → Bytes
cfg sub = cfg_prefix ++ (sub ∷ [])

abbrev pub command : String → Bytes → Support → Danger → Option ℕ → Command
command name opcode support danger args = record {
  name = name;
  opcode = opcode;
  support = support;
  danger = danger;
  args = args;
}

abbrev pub firmware_version : Command
firmware_version = command "FIRMWARE_VERSION" (ctrl 0x07) verified safe (some 0)

abbrev pub battery : Command
battery = command "BATTERY" (ctrl 0x08) verified safe (some 0)

abbrev pub serial : Command
serial = command "SERIAL" (ctrl 0x09) verified safe (some 0)

abbrev pub auto_power_time : Command
auto_power_time = command "AUTO_POWER_TIME" (ctrl 0x0E) verified safe (some 0)

abbrev pub paper_state : Command
paper_state = command "PAPER_STATE" (ctrl 0x11) verified safe (some 0)

abbrev pub cover_state : Command
cover_state = command "COVER_STATE" (ctrl 0x12) verified safe (some 0)

abbrev pub hot_state : Command
hot_state = command "HOT_STATE" (ctrl 0x13) verified safe (some 0)

abbrev pub label_type : Command
label_type = command "LABEL_TYPE" (ctrl 0x19) verified safe (some 0)

abbrev pub chip_type : Command
chip_type = command "CHIP_TYPE" (ctrl 0x38) verified safe (some 0)

abbrev pub power_key_type : Command
power_key_type = command "POWER_KEY_TYPE" (ctrl 0x65) verified safe (some 0)

abbrev pub date_format : Command
date_format = command "DATE_FORMAT" (ctrl 0x4B) verified safe (some 0)

abbrev pub bt_loss_test : Command
bt_loss_test = command "BT_LOSS_TEST" (ctrl 0x4A) verified safe (some 0)

abbrev pub label_width : Command
label_width = command "LABEL_WIDTH" (ctrl 0x18) decompiled safe (some 0)

abbrev pub all_error : Command
all_error = command "ALL_ERROR" (ctrl 0x28) decompiled safe (some 0)

abbrev pub hardware_version : Command
hardware_version = command "HARDWARE_VERSION" (ctrl 0x33) verified safe (some 0)

abbrev pub comm_version : Command
comm_version = command "COMM_VERSION" (ctrl 0x34) decompiled safe (some 0)

abbrev pub sensor_info : Command
sensor_info = command "SENSOR_INFO" (ctrl 0x1D) verified safe (some 0)

abbrev pub sensor_heat : Command
sensor_heat = command "SENSOR_HEAT" (ctrl 0x3A) decompiled safe (some 0)

abbrev pub voltage : Command
voltage = command "VOLTAGE" (ctrl 0x1F) verified safe (some 0)

abbrev pub charge_mode : Command
charge_mode = command "CHARGE_MODE" (ctrl 0x43) decompiled safe (some 0)

abbrev pub compress_type : Command
compress_type = command "COMPRESS_TYPE" (ctrl 0x51) decompiled safe (some 0)

abbrev pub compress_size : Command
compress_size = command "COMPRESS_SIZE" (ctrl 0x36) decompiled safe (some 0)

abbrev pub print_busy : Command
print_busy = command "PRINT_BUSY" (ctrl 0x54) reachable safe (some 0)

abbrev pub bt_mac : Command
bt_mac = command "BT_MAC" (ctrl 0x20) decompiled safe (some 0)

abbrev pub rfid_remain : Command
rfid_remain = command "RFID_REMAIN" (ctrl 0x22) reachable safe (some 0)

abbrev pub rfid_label_info : Command
rfid_label_info = command "RFID_LABEL_INFO" (ctrl 0x31) reachable safe (some 0)

abbrev pub query_consumables_uid : Command
query_consumables_uid = command "QUERY_CONSUMABLES_UID" (ctrl 0x99) reachable safe (some 0)

abbrev pub print_density : Command
print_density = command "PRINT_DENSITY" (ctrl 0x02) verified safe (some 1)

abbrev pub left_margin : Command
left_margin = command "LEFT_MARGIN" (ctrl 0x24) verified safe (some 1)

abbrev pub print_multi : Command
print_multi = command "PRINT_MULTI" (ctrl 0x21) verified safe (some 1)

abbrev pub exit_compress_mode : Command
exit_compress_mode = command "EXIT_COMPRESS_MODE" (ctrl 0x35) verified safe (some 1)

abbrev pub init_printer : Command
init_printer = command "INIT_PRINTER" (0x1b ∷ 0x40 ∷ []) verified safe (some 0)

abbrev pub print_image : Command
print_image = command "PRINT_IMAGE" (0x1d ∷ 0x76 ∷ 0x30 ∷ 0x00 ∷ []) verified safe (none)

abbrev pub print_and_feed : Command
print_and_feed = command "PRINT_AND_FEED" (0x1b ∷ 0x64 ∷ []) verified safe (some 1)

abbrev pub feed_paper : Command
feed_paper = command "FEED_PAPER" (ctrl 0x32) decompiled safe (some 0)

abbrev pub print_test_page : Command
print_test_page = command "PRINT_TEST_PAGE" (ctrl 0x27) decompiled safe (some 0)

abbrev pub paper_learn : Command
paper_learn = command "PAPER_LEARN" (ctrl 0x1E) decompiled safe (some 0)

abbrev pub auto_locate : Command
auto_locate = command "AUTO_LOCATE" (ctrl 0x25) decompiled safe (some 0)

abbrev pub verify_paper : Command
verify_paper = command "VERIFY_PAPER" (cfg 0x10) verified safe (some 0)

abbrev pub auto_shutdown_time : Command
auto_shutdown_time = command "AUTO_SHUTDOWN_TIME" (cfg 0x07) verified stateful (some 1)

abbrev pub print_speed : Command
print_speed = command "PRINT_SPEED" (ctrl 0x23) reachable stateful (some 1)

abbrev pub paper_type : Command
paper_type = command "PAPER_TYPE" ctrl_prefix verified stateful (some 1)

abbrev pub set_power_key_type : Command
set_power_key_type = command "SET_POWER_KEY_TYPE" (cfg 0x25) reachable stateful (some 1)

abbrev pub shutdown : Command
shutdown = command "SHUTDOWN" (ctrl 0x42) decompiled stateful (some 0)

abbrev pub heart_beat : Command
heart_beat = command "HEART_BEAT" (0x1a ∷ 0x18 ∷ 0x01 ∷ []) decompiled safe (some 0)

abbrev pub device_id : Command
device_id = command "DEVICE_ID" (cfg 0x08) reachable destructive (none)

abbrev pub ota_mode : Command
ota_mode = command "OTA_MODE" (ctrl 0x0F) decompiled destructive (some 0)

abbrev pub firmware_upgrade_start : Command
firmware_upgrade_start = command "FIRMWARE_UPGRADE_START" (ctrl 0x14) reachable destructive (some 0)

abbrev pub firmware_upgrade_confirm : Command
firmware_upgrade_confirm =
    command "FIRMWARE_UPGRADE_CONFIRM" (ctrl 0x15) reachable destructive (some 0)

abbrev pub firmware_upgrade_cancel : Command
firmware_upgrade_cancel =
    command "FIRMWARE_UPGRADE_CANCEL" (ctrl 0x16) reachable destructive (some 0)

abbrev pub set_crimp_mode : Command
set_crimp_mode = command "SET_CRIMP_MODE" (ctrl 0x88) decompiled destructive (some 0)

abbrev pub material_config : Command
material_config = command "MATERIAL_CONFIG" (ctrl 0x39) decompiled destructive (some 0)

abbrev pub probe_set : List Command
probe_set =
    serial ∷ firmware_version ∷ hardware_version ∷ comm_version ∷ battery ∷ paper_state
    ∷ cover_state ∷ hot_state ∷ label_type ∷ label_width ∷ chip_type ∷ auto_power_time ∷ voltage
    ∷ sensor_info ∷ sensor_heat ∷ charge_mode ∷ compress_type ∷ all_error ∷ print_busy ∷ []

abbrev pub session_queries : List Command
session_queries =
    chip_type ∷ cover_state ∷ hot_state ∷ serial ∷ paper_state ∷ label_type ∷ firmware_version
    ∷ battery ∷ auto_power_time ∷ []

abbrev pub telemetry_queries : List Command
telemetry_queries = voltage ∷ []

abbrev pub forbidden : List String
forbidden =
    device_id.name ∷ ota_mode.name ∷ firmware_upgrade_start.name ∷ firmware_upgrade_confirm.name
    ∷ firmware_upgrade_cancel.name ∷ set_crimp_mode.name ∷ material_config.name ∷ []

-- Every command that the module declares.
abbrev pub all_commands : List Command
all_commands =
    firmware_version ∷ battery ∷ serial ∷ auto_power_time ∷ paper_state ∷ cover_state ∷ hot_state
    ∷ label_type ∷ chip_type ∷ power_key_type ∷ date_format ∷ bt_loss_test ∷ label_width ∷ all_error
    ∷ hardware_version ∷ comm_version ∷ sensor_info ∷ sensor_heat ∷ voltage ∷ charge_mode
    ∷ compress_type ∷ compress_size ∷ print_busy ∷ bt_mac ∷ rfid_remain ∷ rfid_label_info
    ∷ query_consumables_uid ∷ print_density ∷ left_margin ∷ print_multi ∷ exit_compress_mode
    ∷ init_printer ∷ print_image ∷ print_and_feed ∷ feed_paper ∷ print_test_page ∷ paper_learn
    ∷ auto_locate ∷ verify_paper ∷ auto_shutdown_time ∷ print_speed ∷ paper_type
    ∷ set_power_key_type ∷ shutdown ∷ heart_beat ∷ device_id ∷ ota_mode ∷ firmware_upgrade_start
    ∷ firmware_upgrade_confirm ∷ firmware_upgrade_cancel ∷ set_crimp_mode ∷ material_config ∷ []
