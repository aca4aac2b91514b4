-- ===== src/Data.antt =====
-- VehicleData.h: the data contract between the CAN task, the state machine, the display and the
-- uplink; and the outputs of CanParse.h. Unsigned fields are numbers, signed ones integers.
use tufan_aks.Base.{ℕ, Bool, false, List, replicate}
use tufan_aks.Base.Int.{ℤ, pos}

pub record TelemetryData : Type 0 where
  pub motor_rpm : ℤ  -- int16
  pub motor_voltage_deci_v : ℕ  -- uint16
  pub motor_error_flags : ℕ  -- uint8
  pub motor_data_valid : Bool
  pub motor_timeout_active : Bool
  pub bms_cell_voltages : List ℕ  -- uint16[24]
  pub bms_cell_voltage_max_deci_mv : ℕ  -- uint16
  pub bms_cell_voltage_min_deci_mv : ℕ  -- uint16
  pub bms_cell_voltage_avg_deci_mv : ℕ  -- uint16
  pub bms_system_state : ℕ  -- uint8
  pub cell_voltage_data_valid : Bool
  pub cell_voltage_timeout_active : Bool
  pub bms_pack_voltage_deci_v : ℕ  -- uint16
  pub bms_current_centi_a : ℤ  -- int32
  pub bms_soc_hundredths : ℕ  -- uint16
  pub bms_soc2_hundredths : ℕ  -- uint16
  pub bms_temp_highest_c : ℤ  -- int8
  pub bms_temp_lowest_c : ℤ  -- int8
  pub bms_data_valid : Bool
  pub bms_timeout_active : Bool
  pub timestamp_ms : ℕ  -- uint32
  pub speed_kmh_x10 : ℕ  -- uint16

-- `TelemetryData x = {}`
abbrev pub zero_telemetry : TelemetryData
zero_telemetry = record {
  motor_rpm = pos 0;
  motor_voltage_deci_v = 0;
  motor_error_flags = 0;
  motor_data_valid = false;
  motor_timeout_active = false;
  bms_cell_voltages = replicate 24 0;
  bms_cell_voltage_max_deci_mv = 0;
  bms_cell_voltage_min_deci_mv = 0;
  bms_cell_voltage_avg_deci_mv = 0;
  bms_system_state = 0;
  cell_voltage_data_valid = false;
  cell_voltage_timeout_active = false;
  bms_pack_voltage_deci_v = 0;
  bms_current_centi_a = pos 0;
  bms_soc_hundredths = 0;
  bms_soc2_hundredths = 0;
  bms_temp_highest_c = pos 0;
  bms_temp_lowest_c = pos 0;
  bms_data_valid = false;
  bms_timeout_active = false;
  timestamp_ms = 0;
  speed_kmh_x10 = 0;
}

pub record MotorStatus : Type 0 where
  pub rpm : ℤ  -- int16
  pub motor_voltage_deci_v : ℕ  -- uint16
  pub error_flags : ℕ  -- uint8
  pub is_running : Bool
  pub is_valid : Bool

pub record ChargerCommand : Type 0 where
  pub charge_voltage_setpoint_deci_v : ℕ  -- uint16
  pub charge_current_setpoint_deci_a : ℕ  -- uint16
