-- ===== src/Tasks/Hmi.antt =====
-- The display task, `vTask_HMI_Display` of ESP_AKS/src/main.cpp: what it shows of a snapshot, when it refreshes
-- the pack, and what a touch button posts to the state machine. The two values that a floating-point filter
-- smooths, the speed and the motor's speed, are arguments.
pub mod Button
pub mod Pack
use tufan_aks.Base.{
  ℕ, zero, suc, ◌+◌, ◌-◌, leb, ◌==◌, Bool, true, false, not, ◌&&◌, ◌||◌, if◌then◌else◌, List, [],
  ◌∷◌, replicate, Option, none, some,
}
use tufan_aks.Base.Int.{ℤ, pos, scale}
use tufan_aks.Base.Words.{sub32}
use tufan_aks.Data.{TelemetryData}
use tufan_aks.Safety.{VcuState}
use tufan_aks.Actuator.{RelayActuator}
use tufan_aks.Queue.{EventQueue}
use tufan_aks.Vcu.{VcuEvent, Machine, post_event}
use tufan_aks.Relay.{Manager, get_relay_state}
use tufan_aks.Bms.{PackData, Computed, compute_pack, zero_computed, warn_critical}
use tufan_aks.Nextion.{NextionCache, Sync, build_bms_nextion_commands}
use tufan_aks.Display.{DisplayData, Display, TouchRx, read_touch_command}
use tufan_aks.Display.Helpers.{
  HmiVcuState, battery_no_data, temp_no_data, cell_voltage_no_data, battery_display_value,
  temperature_display_value,
}

pub map_vcu_state : VcuState → HmiVcuState
map_vcu_state VcuState.init = HmiVcuState.init
map_vcu_state VcuState.idle = HmiVcuState.idle
map_vcu_state VcuState.ready = HmiVcuState.ready
map_vcu_state VcuState.drive = HmiVcuState.drive
map_vcu_state VcuState.emergency_stop = HmiVcuState.emergency_stop
map_vcu_state VcuState.fault = HmiVcuState.fault

-- The loop of `HMI_areAllContactorsClosed` over the channels below n.
abbrev pub closed_below : {D : Type 0} → ℕ → Manager D → Bool
closed_below zero m = true
closed_below (suc n) m = closed_below n m && get_relay_state m n

pub are_all_contactors_closed : {D : Type 0} → Manager D → Bool
are_all_contactors_closed m = closed_below 10 m

-- The fields of the screen without a snapshot, and with one.
pub screen_data : HmiVcuState → Bool → ℕ → ℕ → Option TelemetryData → DisplayData
screen_data state closed smoothed_speed smoothed_rpm none = record {
  current_speed = 0;
  current_battery = battery_no_data;
  hmi_motor_rpm = 0;
  motor_torque_feedback = pos 0;
  hmi_error_flags = 0;
  bms_temperature_c = temp_no_data;
  pack_voltage_deci_v = 0;
  pack_current_centi_a = pos 0;
  vcu_state = state;
  contactor_closed = closed;
  hmi_data_valid = false;
  hmi_timeout_active = false;
}
screen_data state closed smoothed_speed smoothed_rpm (some d) = record {
  current_speed = smoothed_speed;
  current_battery = battery_display_value true d.bms_data_valid d.bms_soc_hundredths;
  hmi_motor_rpm = smoothed_rpm;
  motor_torque_feedback = pos 0;
  hmi_error_flags = d.motor_error_flags;
  bms_temperature_c = temperature_display_value true d.bms_data_valid d.bms_temp_highest_c;
  pack_voltage_deci_v = d.bms_pack_voltage_deci_v;
  pack_current_centi_a = d.bms_current_centi_a;
  vcu_state = state;
  contactor_closed = closed;
  hmi_data_valid = d.motor_data_valid;
  hmi_timeout_active = d.motor_timeout_active;
}

-- What is known of the pack, from a snapshot with valid BMS data.
abbrev raw_of : TelemetryData → PackData
raw_of d = record {
  cell_voltage_mv =
      if d.cell_voltage_data_valid then d.bms_cell_voltages else replicate 24 cell_voltage_no_data;
  cell_temp_c = replicate 24 (pos 0);
  pack_current_ma = scale 10 d.bms_current_centi_a;
  is_valid = true;
  cell_data_valid = d.cell_voltage_data_valid;
}

abbrev pub raw_unknown : PackData
raw_unknown = record {
  cell_voltage_mv = replicate 24 cell_voltage_no_data;
  cell_temp_c = replicate 24 (pos 0);
  pack_current_ma = pos 0;
  is_valid = false;
  cell_data_valid = false;
}

abbrev pub computed_unknown : Computed
computed_unknown = record (zero_computed warn_critical) {
  cell_max_mv = cell_voltage_no_data;
  cell_min_mv = cell_voltage_no_data;
}

pub pack_of : Option TelemetryData → PackData × Computed
pack_of none = (raw_unknown, computed_unknown)
pack_of (some d) =
    if d.bms_data_valid
    then (raw_of d, compute_pack (raw_of d))
    else (raw_unknown, computed_unknown)

-- The static variables of the refresh.
pub record Refresh : Type 0 where
  pub hmi_cache : NextionCache
  pub last_cell_update_ms : ℕ  -- uint32
  pub first_run : Bool

-- One round's commands for the pack.
pub refresh_pack : ℕ → Option TelemetryData → Refresh → Refresh × Sync
refresh_pack now snapshot r =
    let due = not r.first_run && leb 1000 (sub32 now r.last_cell_update_ms) in
    let update_cells = r.first_run || due in
    let p = pack_of snapshot in
    let b = build_bms_nextion_commands 90 r.first_run update_cells (p.1) (p.0) r.hmi_cache in
    (
      record {
        hmi_cache = b.0;
        last_cell_update_ms = if update_cells then now else r.last_cell_update_ms;
        first_run = false;
      },
      b.1,
    )

-- The event of a command, `none` for one that is not known.
pub command_event : ℕ → Option VcuEvent
command_event c =
    if c == 1
    then some VcuEvent.start_request
    else if c == 2
    then some VcuEvent.reset
    else if c == 3
    then some VcuEvent.emergency_stop
    else if c == 4
    then some VcuEvent.drive_enable
    else none

module _ (R : RelayActuator) (Q : EventQueue VcuEvent) where
  abbrev pub post_command : Option ℕ → Machine R Q → Machine R Q
  post_command none s = s
  post_command (some c) s = elim (command_event c) [ none ↦ s | some e ↦ post_event R Q e s ]

  -- The end of a round: at most one button is read, and its event is posted.
  unfoldable pub poll_buttons :
      Display → List ℕ → TouchRx → Machine R Q → Machine R Q × TouchRx × List ℕ
  poll_buttons d received t s =
      let r = read_touch_command d received t in (post_command (r.0) s, r.1, r.2)
