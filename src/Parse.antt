-- ===== src/Parse.antt =====
-- The pure parsers of ESP_AKS/lib/CanParse/CanParse.cpp. One that fills a structure and returns
-- whether it did is an `Option`: `none` is `false`, with the structure as it was.
pub mod Fields
pub mod Timeout
mod Tests
use Prim.Native.Nat.{bit_and}
use tufan_aks.Base.{
  ℕ, ◌+◌, ◌*◌, ◌/◌, ◌==◌, leb, ltb, Bool, true, false, not, ◌||◌, if◌then◌else◌, Option, none, some,
  List, get_or, set,
}
use tufan_aks.Base.Int.{ℤ, leb_ℤ, scale}
use tufan_aks.Base.Words.{sub32, signed8, signed16}
use tufan_aks.Data.{TelemetryData, MotorStatus, ChargerCommand}

-- What the sources use of `twai_message_t`: `data` are its eight bytes.
pub record CanFrame : Type 0 where
  pub identifier : ℕ
  pub extd : Bool
  pub rtr : Bool
  pub data_length_code : ℕ
  pub bytes : List ℕ

abbrev pub byte : CanFrame → ℕ → ℕ
byte f i = get_or f.bytes i 0

-- `(data[i] << 8) | data[i + 1]`: the two bytes do not overlap.
abbrev pub word : CanFrame → ℕ → ℕ
word f i = byte f i * 256 + byte f (i + 1)

unfoldable pub parse_motor_status : CanFrame → Option MotorStatus
parse_motor_status f =
    if ltb f.data_length_code 8
    then none
    else some (record {
      rpm = signed16 (word f 0);
      motor_voltage_deci_v = word f 2;
      error_flags = bit_and (byte f 7) 0xFE;
      is_running = not (bit_and (byte f 7) 0x01 == 0);
      is_valid = true;
    })

unfoldable pub parse_lb_bms_e000 : CanFrame → TelemetryData → Option TelemetryData
parse_lb_bms_e000 f out =
    if ltb f.data_length_code 8
    then none
    else some (record out {
      bms_current_centi_a = scale 10 (signed16 (word f 0));
      bms_pack_voltage_deci_v = word f 2;
      bms_soc_hundredths = word f 4;
      bms_soc2_hundredths = word f 6;
      bms_data_valid = true;
    })

unfoldable pub parse_charger_1806e5f4 : CanFrame → Option ChargerCommand
parse_charger_1806e5f4 f =
    if ltb f.data_length_code 4
    then none
    else some (record {
      charge_voltage_setpoint_deci_v = word f 0;
      charge_current_setpoint_deci_a = word f 2;
    })

unfoldable pub parse_lb_bms_e001 : CanFrame → TelemetryData → Option TelemetryData
parse_lb_bms_e001 f out =
    if ltb f.data_length_code 8
    then none
    else (let temp1 = signed8 (byte f 6) in
        let temp2 = signed8 (byte f 7) in
        some (record out {
          bms_cell_voltage_min_deci_mv = word f 0;
          bms_cell_voltage_max_deci_mv = word f 2;
          bms_cell_voltage_avg_deci_mv = word f 4;
          bms_temp_highest_c = if leb_ℤ temp2 temp1 then temp1 else temp2;
          bms_temp_lowest_c = if leb_ℤ temp1 temp2 then temp1 else temp2;
        }))

-- The frames whose meaning is not known: E002 to E006, E032 and E033 are accepted if not empty.
pub parse_lb_bms_stub : CanFrame → Bool
parse_lb_bms_stub f = ltb 0 f.data_length_code

-- Four cell voltages from the cell `first` on, in millivolts.
abbrev pub set_cells : ℕ → CanFrame → List ℕ → List ℕ
set_cells first f cells =
    set
      (set (set (set cells first (word f 0 / 10)) (first + 1) (word f 2 / 10)) (first + 2)
        (word f 4 / 10))
      (first + 3) (word f 6 / 10)

abbrev pub parse_cells : ℕ → CanFrame → TelemetryData → Option TelemetryData
parse_cells first f out =
    if ltb f.data_length_code 8
    then none
    else some (record out { bms_cell_voltages = set_cells first f out.bms_cell_voltages })

pub parse_lb_bms_e015 : CanFrame → TelemetryData → Option TelemetryData
parse_lb_bms_e015 = parse_cells 0

pub parse_lb_bms_e016 : CanFrame → TelemetryData → Option TelemetryData
parse_lb_bms_e016 = parse_cells 4

pub parse_lb_bms_e017 : CanFrame → TelemetryData → Option TelemetryData
parse_lb_bms_e017 = parse_cells 8

pub parse_lb_bms_e018 : CanFrame → TelemetryData → Option TelemetryData
parse_lb_bms_e018 = parse_cells 12

pub parse_lb_bms_e019 : CanFrame → TelemetryData → Option TelemetryData
parse_lb_bms_e019 = parse_cells 16

pub parse_lb_bms_e020 : CanFrame → TelemetryData → Option TelemetryData
parse_lb_bms_e020 = parse_cells 20

pub data PackVoltageFault : Type 0 where
  no_fault undervoltage overvoltage : PackVoltageFault

unfoldable pub check_pack_voltage_fault : ℕ → ℕ → ℕ → PackVoltageFault
check_pack_voltage_fault v critical_min critical_max =
    if leb v critical_min
    then undervoltage
    else if leb critical_max v
    then overvoltage
    else no_fault

-- `static_cast<TickType_t>(now - lastTick) >= timeoutTicks`, where a tick count is 32 bits wide
unfoldable pub is_motor_status_timed_out : Bool → Bool → ℕ → ℕ → ℕ → Bool
is_motor_status_timed_out has_seen last_valid now last_tick timeout =
    if not has_seen || not last_valid then false else leb timeout (sub32 now last_tick)

unfoldable pub is_bms_status_timed_out : Bool → Bool → ℕ → ℕ → ℕ → Bool
is_bms_status_timed_out has_seen last_valid now last_tick timeout =
    if not has_seen || not last_valid then false else leb timeout (sub32 now last_tick)
