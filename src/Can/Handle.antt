-- ===== src/Can/Handle.antt =====
-- The handlers of single frames of ESP_AKS/lib/CanManager/CanManager.cpp.
use Prim.Native.Nat.{bit_or}
use tufan_aks.Base.{
  ℕ, ◌+◌, ◌*◌, ◌^◌, ◌==◌, true, false, not, if◌then◌else◌, Option, none, some, List, set, get_or,
}
use tufan_aks.Base.Int.{ℤ, pos_part, neg_part}
use tufan_aks.Base.Words.{signed16}
use tufan_aks.Config.{
  motor_error_debounce_frames, bms_critical_min_pack_voltage_deci_v,
  bms_critical_max_pack_voltage_deci_v,
}
use tufan_aks.Data.{TelemetryData, MotorStatus, zero_telemetry}
use tufan_aks.Parse.{
  CanFrame, parse_motor_status, parse_lb_bms_e000, parse_lb_bms_e001, parse_charger_1806e5f4,
  parse_lb_bms_e015, parse_lb_bms_e016, parse_lb_bms_e017, parse_lb_bms_e018, parse_lb_bms_e019,
  parse_lb_bms_e020, PackVoltageFault, no_fault, undervoltage, overvoltage,
  check_pack_voltage_fault,
}
use tufan_aks.Can.{CanManager, motor_error_fault_confirmed, notify_fault_if_needed}

-- |rpm| as uint16_t, kept in the int16_t field.
abbrev pub rpm_magnitude : ℤ → ℤ
rpm_magnitude rpm = signed16 (pos_part rpm + neg_part rpm)

-- The part of `handleMotorStatus` under the mutex.
unfoldable pub store_motor_status : ℕ → MotorStatus → CanManager → CanManager
unfolding motor_error_fault_confirmed
store_motor_status now parsed m =
    let r =
      motor_error_fault_confirmed parsed.error_flags m.motor_error_consecutive
        motor_error_debounce_frames in
    record m {
      motor_status = parsed;
      last_motor_status_tick = now;
      has_seen_motor_status = true;
      motor_timeout_logged = false;
      motor_error_consecutive = r.1;
      telemetry = record m.telemetry {
        motor_rpm = rpm_magnitude parsed.rpm;
        motor_voltage_deci_v = parsed.motor_voltage_deci_v;
        motor_error_flags = if r.0 then parsed.error_flags else 0;
        motor_data_valid = parsed.is_valid;
        motor_timeout_active = false;
      };
    }

unfoldable pub handle_motor_status : ℕ → CanFrame → CanManager → CanManager
handle_motor_status now f m = elim (parse_motor_status f) [
  | none ↦ m
  | some parsed ↦
      (if not m.mutex
        then m
        else (let t = store_motor_status now parsed m in
            notify_fault_if_needed m.telemetry.motor_error_flags t.telemetry.motor_error_flags t))
]

abbrev pub pack_fault_flags : PackVoltageFault → ℕ
pack_fault_flags undervoltage = 0x01
pack_fault_flags overvoltage = 0x02
pack_fault_flags no_fault = 0

unfoldable pub handle_lb_bms_e000 : ℕ → CanFrame → CanManager → CanManager
handle_lb_bms_e000 now f m = if not m.mutex then m else elim (parse_lb_bms_e000 f zero_telemetry) [
  | none ↦ m
  | some parsed ↦
      (let flags = pack_fault_flags (
          check_pack_voltage_fault parsed.bms_pack_voltage_deci_v
            bms_critical_min_pack_voltage_deci_v bms_critical_max_pack_voltage_deci_v) in
        notify_fault_if_needed m.bms_pack_fault_flags flags (record m {
          telemetry = record m.telemetry {
            bms_pack_voltage_deci_v = parsed.bms_pack_voltage_deci_v;
            bms_current_centi_a = parsed.bms_current_centi_a;
            bms_soc_hundredths = parsed.bms_soc_hundredths;
            bms_soc2_hundredths = parsed.bms_soc2_hundredths;
          };
          last_bms_e000_tick = now;
          has_seen_bms_e000 = true;
          bms_pack_fault_flags = flags;
        }))
]

unfoldable pub handle_lb_bms_e001 : ℕ → CanFrame → CanManager → CanManager
handle_lb_bms_e001 now f m = if not m.mutex then m else elim (parse_lb_bms_e001 f zero_telemetry) [
  | none ↦ m
  | some parsed ↦ record m {
    telemetry = record m.telemetry {
      bms_cell_voltage_min_deci_mv = parsed.bms_cell_voltage_min_deci_mv;
      bms_cell_voltage_max_deci_mv = parsed.bms_cell_voltage_max_deci_mv;
      bms_cell_voltage_avg_deci_mv = parsed.bms_cell_voltage_avg_deci_mv;
      bms_temp_highest_c = parsed.bms_temp_highest_c;
      bms_temp_lowest_c = parsed.bms_temp_lowest_c;
    };
    last_bms_e001_tick = now;
    has_seen_bms_e001 = true;
  }
]

-- The six handlers of cell frames differ in the parser and in the group's number: the cells from
-- 4 g on are copied from what was parsed, and bit g of the mask is set.
abbrev pub copy_cells : ℕ → List ℕ → List ℕ → List ℕ
copy_cells first parsed cells =
    set
      (set (set (set cells first (get_or parsed first 0)) (first + 1) (get_or parsed (first + 1) 0))
        (first + 2) (get_or parsed (first + 2) 0))
      (first + 3) (get_or parsed (first + 3) 0)

unfoldable pub store_cells : ℕ → ℕ → TelemetryData → CanManager → CanManager
store_cells g now parsed m =
    let mask = bit_or m.cell_voltage_seen_mask (2 ^ g) in
    let full = mask == 0x3F in
    record m {
      telemetry = record m.telemetry {
        bms_cell_voltages =
            copy_cells (4 * g) parsed.bms_cell_voltages m.telemetry.bms_cell_voltages;
        cell_voltage_data_valid = if full then true else m.telemetry.cell_voltage_data_valid;
      };
      last_cell_voltage_tick = now;
      has_seen_cell_voltage = true;
      cell_voltage_seen_mask = mask;
      cell_voltage_complete = if full then true else m.cell_voltage_complete;
    }

abbrev pub store_parsed : ℕ → ℕ → Option TelemetryData → CanManager → CanManager
store_parsed g now none m = m
store_parsed g now (some parsed) m = store_cells g now parsed m

unfoldable pub handle_lb_bms_e015 : ℕ → CanFrame → CanManager → CanManager
handle_lb_bms_e015 now f m = store_parsed 0 now (parse_lb_bms_e015 f zero_telemetry) m

unfoldable pub handle_lb_bms_e016 : ℕ → CanFrame → CanManager → CanManager
handle_lb_bms_e016 now f m = store_parsed 1 now (parse_lb_bms_e016 f zero_telemetry) m

unfoldable pub handle_lb_bms_e017 : ℕ → CanFrame → CanManager → CanManager
handle_lb_bms_e017 now f m = store_parsed 2 now (parse_lb_bms_e017 f zero_telemetry) m

unfoldable pub handle_lb_bms_e018 : ℕ → CanFrame → CanManager → CanManager
handle_lb_bms_e018 now f m = store_parsed 3 now (parse_lb_bms_e018 f zero_telemetry) m

unfoldable pub handle_lb_bms_e019 : ℕ → CanFrame → CanManager → CanManager
handle_lb_bms_e019 now f m = store_parsed 4 now (parse_lb_bms_e019 f zero_telemetry) m

unfoldable pub handle_lb_bms_e020 : ℕ → CanFrame → CanManager → CanManager
handle_lb_bms_e020 now f m = store_parsed 5 now (parse_lb_bms_e020 f zero_telemetry) m

unfoldable pub handle_charger_1806e5f4 : ℕ → CanFrame → CanManager → CanManager
handle_charger_1806e5f4 now f m = if not m.mutex then m else elim (parse_charger_1806e5f4 f) [
  | none ↦ m
  | some parsed ↦ record m {
    charger_command = parsed;
    last_charger_tick = now;
    has_seen_charger = true;
    charger_valid = true;
    charger_stale_logged = false;
  }
]
