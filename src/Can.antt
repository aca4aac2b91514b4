-- ===== src/Can.antt =====
-- The state of ESP_AKS/lib/CanManager/CanManager.h, with the pure parts of its folder: the
-- freshness of the two BMS messages (BmsFreshness.h) and the debouncing of the motor's error flags
-- (MotorFaultDebounce.h). The operations are in the modules below.
--
-- The mutex of the source makes each handler one step; `mutex` says that it has been created. The
-- tick count that a handler reads is its argument `now`, and `ms_to_ticks` is FreeRTOS's
-- pdMS_TO_TICKS, a parameter. `fault_events` counts the calls of the event callback.
pub mod Handle
pub mod Update
pub mod Receive
pub mod Begin
pub mod Sample
pub mod Fits
pub mod Keep
pub mod Typed
pub mod Freshness
pub mod Debounce
pub mod Cells
pub mod Assembly
mod Tests
use tufan_aks.Base.{ℕ, ◌+◌, ◌==◌, leb, ltb, Bool, true, false, not, ◌&&◌, ◌||◌, if◌then◌else◌}
use tufan_aks.Base.Int.{pos}
use tufan_aks.Base.Words.{sub32, u32_mod}
use tufan_aks.Data.{TelemetryData, MotorStatus, ChargerCommand, zero_telemetry}

pub record CanManager : Type 0 where
  pub is_initialized : Bool
  pub motor_status : MotorStatus
  pub telemetry : TelemetryData
  pub mutex : Bool
  pub last_motor_status_tick : ℕ  -- uint32, as every tick below
  pub has_seen_motor_status : Bool
  pub motor_timeout_logged : Bool
  pub motor_error_consecutive : ℕ  -- uint16
  pub bus_off_logged : Bool
  pub bus_recovered_logged : Bool
  pub rx_queue_full_count : ℕ  -- uint32
  pub rx_remote_frame_count : ℕ  -- uint32
  pub last_rx_queue_full_log_tick : ℕ
  pub torque_skip_logged : Bool
  pub last_bms_e000_tick : ℕ
  pub has_seen_bms_e000 : Bool
  pub last_bms_e001_tick : ℕ
  pub has_seen_bms_e001 : Bool
  pub bms_timeout_logged : Bool
  pub last_cell_voltage_tick : ℕ
  pub has_seen_cell_voltage : Bool
  pub cell_voltage_timeout_logged : Bool
  pub cell_voltage_seen_mask : ℕ  -- uint8
  pub cell_voltage_complete : Bool
  pub bms_pack_fault_flags : ℕ  -- uint8
  pub charger_command : ChargerCommand
  pub last_charger_tick : ℕ
  pub has_seen_charger : Bool
  pub charger_valid : Bool
  pub charger_stale_logged : Bool
  pub event_callback : Bool
  pub fault_events : ℕ

-- The initial values of the members.
abbrev pub new_manager : CanManager
new_manager = record {
  is_initialized = false;
  motor_status = record {
    rpm = pos 0;
    motor_voltage_deci_v = 0;
    error_flags = 0;
    is_running = false;
    is_valid = false;
  };
  telemetry = zero_telemetry;
  mutex = false;
  last_motor_status_tick = 0;
  has_seen_motor_status = false;
  motor_timeout_logged = false;
  motor_error_consecutive = 0;
  bus_off_logged = false;
  bus_recovered_logged = false;
  rx_queue_full_count = 0;
  rx_remote_frame_count = 0;
  last_rx_queue_full_log_tick = 0;
  torque_skip_logged = false;
  last_bms_e000_tick = 0;
  has_seen_bms_e000 = false;
  last_bms_e001_tick = 0;
  has_seen_bms_e001 = false;
  bms_timeout_logged = false;
  last_cell_voltage_tick = 0;
  has_seen_cell_voltage = false;
  cell_voltage_timeout_logged = false;
  cell_voltage_seen_mask = 0;
  cell_voltage_complete = false;
  bms_pack_fault_flags = 0;
  charger_command = record {
    charge_voltage_setpoint_deci_v = 0;
    charge_current_setpoint_deci_a = 0;
  };
  last_charger_tick = 0;
  has_seen_charger = false;
  charger_valid = false;
  charger_stale_logged = false;
  event_callback = false;
  fault_events = 0;
}

-- `consecutiveCount` comes back beside the result.
pub motor_error_fault_confirmed : ℕ → ℕ → ℕ → Bool × ℕ
motor_error_fault_confirmed error_flags count debounce =
    if error_flags == 0
    then (false, 0)
    else (let n = if ltb count 65535 then count + 1 else count in (leb debounce n, n))

pub record FreshnessResult : Type 0 where
  pub data_valid : Bool
  pub timeout_active : Bool

pub bms_id_fresh : Bool → ℕ → ℕ → ℕ → Bool
bms_id_fresh seen now last_tick timeout =
    if not seen then false else ltb (sub32 now last_tick) timeout

pub bms_evaluate_freshness : Bool → ℕ → Bool → ℕ → ℕ → ℕ → FreshnessResult
unfolding bms_id_fresh
bms_evaluate_freshness saw_e000 last_e000 saw_e001 last_e001 now timeout =
    let e000_fresh = bms_id_fresh saw_e000 now last_e000 timeout in
    let e001_fresh = bms_id_fresh saw_e001 now last_e001 timeout in
    record {
      data_valid = e000_fresh && e001_fresh;
      timeout_active = (saw_e000 && not e000_fresh) || (saw_e001 && not e001_fresh);
    }

-- `notifyFaultIfNeeded`
pub notify_fault_if_needed : ℕ → ℕ → CanManager → CanManager
notify_fault_if_needed previous current m =
    if current == 0 || current == previous
    then m
    else if m.event_callback
    then record m { fault_events = m.fault_events + 1 }
    else m

-- `setEventCallback` with a callback, and `sendTorqueCommand`, which sends no frame in this
-- configuration (MOTOR_DRIVER_PRESENT is 0).
pub set_event_callback : Bool → CanManager → CanManager
set_event_callback bound m = record m { event_callback = bound }

pub send_torque_command : ℕ → CanManager → Bool × CanManager
send_torque_command torque m =
    if not m.is_initialized
    then (false, m)
    else if not m.torque_skip_logged
    then (false, record m { torque_skip_logged = true })
    else (false, m)
