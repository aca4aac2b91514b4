-- ===== src/Can/Update.antt =====
-- The four updates of ESP_AKS/lib/CanManager/CanManager.cpp that mark data as stale.
use tufan_aks.Base.{ℕ, leb, Bool, true, false, not, ◌&&◌, if◌then◌else◌}
use tufan_aks.Base.Words.{sub32}
use tufan_aks.Config.{
  can_motor_status_timeout_ms, can_bms_status_timeout_ms, can_cell_voltage_timeout_ms,
  can_charger_timeout_ms,
}
use tufan_aks.Data.{TelemetryData, MotorStatus, ChargerCommand}
use tufan_aks.Parse.{is_motor_status_timed_out, is_bms_status_timed_out}
use tufan_aks.Can.{CanManager, bms_evaluate_freshness}

module _ (ms_to_ticks : ℕ → ℕ) where
  unfoldable pub update_motor_status_validity : ℕ → CanManager → CanManager
  update_motor_status_validity now m =
      if not m.mutex
      then m
      else if is_motor_status_timed_out m.has_seen_motor_status m.motor_status.is_valid now
          m.last_motor_status_tick (ms_to_ticks can_motor_status_timeout_ms)
      then record m {
        motor_status = record m.motor_status { is_valid = false };
        telemetry = record m.telemetry { motor_data_valid = false; motor_timeout_active = true };
        motor_timeout_logged = true;
      }
      else m

  unfoldable pub update_bms_validity : ℕ → CanManager → CanManager
  update_bms_validity now m =
      if not m.mutex
      then m
      else (let fresh =
            bms_evaluate_freshness m.has_seen_bms_e000 m.last_bms_e000_tick m.has_seen_bms_e001
              m.last_bms_e001_tick now (ms_to_ticks can_bms_status_timeout_ms) in
          record m {
            telemetry = record m.telemetry {
              bms_data_valid = fresh.data_valid;
              bms_timeout_active = fresh.timeout_active;
            };
            bms_timeout_logged = fresh.timeout_active;
          })

  -- The six cell frames share one time stamp.
  abbrev pub cells_stale : ℕ → CanManager → Bool
  cells_stale now m =
      m.has_seen_cell_voltage
      && leb (ms_to_ticks can_cell_voltage_timeout_ms) (sub32 now m.last_cell_voltage_tick)

  unfoldable pub update_cell_voltage_validity : ℕ → CanManager → CanManager
  update_cell_voltage_validity now m =
      if not m.mutex
      then m
      else if cells_stale now m
      then (let t : CanManager =
            if m.telemetry.cell_voltage_data_valid
            then record m {
              telemetry = record m.telemetry { cell_voltage_data_valid = false };
              cell_voltage_complete = false;
              cell_voltage_seen_mask = 0;
            }
            else m in
          record t {
            telemetry = record t.telemetry { cell_voltage_timeout_active = true };
            cell_voltage_timeout_logged = true;
          })
      else if m.telemetry.cell_voltage_data_valid
      then record m {
        telemetry = record m.telemetry { cell_voltage_timeout_active = false };
        cell_voltage_timeout_logged = false;
      }
      else m

  unfoldable pub update_charger_validity : ℕ → CanManager → CanManager
  update_charger_validity now m =
      if not m.mutex
      then m
      else if is_bms_status_timed_out m.has_seen_charger m.charger_valid now m.last_charger_tick
          (ms_to_ticks can_charger_timeout_ms)
      then record m { charger_valid = false; charger_stale_logged = true }
      else m

  -- `getChargerCommand`: the last setpoints, and whether they are fresh.
  pub get_charger_command : CanManager → ChargerCommand × Bool
  get_charger_command m =
      if not m.mutex then (m.charger_command, false) else (m.charger_command, m.charger_valid)

unfoldable pub get_telemetry_data : CanManager → TelemetryData
get_telemetry_data m = m.telemetry

pub get_motor_status : CanManager → MotorStatus
get_motor_status m = m.motor_status
