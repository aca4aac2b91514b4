-- ===== src/Safety.antt =====
-- The pure safety predicates of ESP_AKS/lib/VcuLogic/VcuLogic.h: they look at one telemetry
-- snapshot and, for the critical ones, at the state that the machine is in.
pub mod Bands
pub mod Units
mod Tests
use tufan_aks.Base.{ℕ, Bool, true, false, ◌&&◌, ◌||◌, not, leb, ltb, ◌==◌, if◌then◌else◌}
use tufan_aks.Base.Int.{ℤ, pos, neg_ℕ, leb_ℤ}
use tufan_aks.Config.{
  bms_warn_min_pack_voltage_deci_v, bms_critical_min_pack_voltage_deci_v,
  bms_warn_max_pack_voltage_deci_v, bms_critical_max_pack_voltage_deci_v, bms_warn_max_temp_c,
  bms_critical_max_temp_c, bms_warn_max_charge_current_centi_a,
  bms_critical_max_charge_current_centi_a, bms_warn_max_discharge_current_centi_a,
  bms_critical_max_discharge_current_centi_a, bms_cell_undervolt_crit_mv, bms_cell_overvolt_crit_mv,
  bms_cell_undervolt_warn_mv, bms_cell_overvolt_warn_mv, motor_driver_present,
}
use tufan_aks.Data.{TelemetryData}

pub data VcuState : Type 0 where
  init idle ready drive emergency_stop fault : VcuState

-- `currentState != VcuState::IDLE`
abbrev pub not_idle : VcuState → Bool
not_idle idle = false
not_idle _ = true

unfoldable pub is_current_critical : ℤ → Bool
is_current_critical a =
    leb_ℤ (pos bms_critical_max_charge_current_centi_a) a
    || leb_ℤ a (neg_ℕ bms_critical_max_discharge_current_centi_a)

unfoldable pub is_current_warning : ℤ → Bool
is_current_warning a =
    leb_ℤ (pos bms_warn_max_charge_current_centi_a) a
    || leb_ℤ a (neg_ℕ bms_warn_max_discharge_current_centi_a)

unfoldable pub is_temp_critical : ℤ → Bool
is_temp_critical t = leb_ℤ (pos bms_critical_max_temp_c) t

unfoldable pub is_temp_warning : ℤ → Bool
is_temp_warning t = leb_ℤ (pos bms_warn_max_temp_c) t

-- The two tests on the cells' extremes; the source compares the fields as they are.
unfoldable pub cells_warning : TelemetryData → Bool
cells_warning d =
    d.cell_voltage_data_valid
    && (ltb d.bms_cell_voltage_min_deci_mv bms_cell_undervolt_warn_mv
        || ltb bms_cell_overvolt_warn_mv d.bms_cell_voltage_max_deci_mv)

unfoldable pub cells_critical : TelemetryData → Bool
cells_critical d =
    d.cell_voltage_data_valid
    && (ltb d.bms_cell_voltage_min_deci_mv bms_cell_undervolt_crit_mv
        || ltb bms_cell_overvolt_crit_mv d.bms_cell_voltage_max_deci_mv)

unfoldable pub has_warning_condition : TelemetryData → Bool
unfolding cells_warning is_temp_warning is_current_warning
has_warning_condition d =
    if not d.bms_data_valid
    then false
    else if cells_warning d
    then true
    else (leb d.bms_pack_voltage_deci_v bms_warn_min_pack_voltage_deci_v
        || leb bms_warn_max_pack_voltage_deci_v d.bms_pack_voltage_deci_v
        || is_temp_warning d.bms_temp_highest_c
        || is_current_warning d.bms_current_centi_a)

-- `motorErrorFlags != 0 || (bmsDataValid && bmsSystemState == 4)`
unfoldable pub reported_fault : TelemetryData → Bool
reported_fault d = not (d.motor_error_flags == 0) || (d.bms_data_valid && d.bms_system_state == 4)

unfoldable pub has_critical_condition : TelemetryData → VcuState → Bool
unfolding reported_fault cells_critical is_temp_critical is_current_critical
has_critical_condition d st =
    if reported_fault d
    then true
    else if d.motor_timeout_active && not_idle st
    then true
    else if d.bms_timeout_active && not_idle st
    then true
    else if not d.bms_data_valid
    then false
    else if cells_critical d
    then true
    else (leb d.bms_pack_voltage_deci_v bms_critical_min_pack_voltage_deci_v
        || leb bms_critical_max_pack_voltage_deci_v d.bms_pack_voltage_deci_v
        || is_temp_critical d.bms_temp_highest_c
        || is_current_critical d.bms_current_centi_a)

unfoldable pub is_reset_interlock_satisfied : TelemetryData → VcuState → Bool
unfolding reported_fault has_critical_condition
is_reset_interlock_satisfied d st =
    if reported_fault d then false else if has_critical_condition d st then false else true

unfoldable pub is_ready_entry_permitted : TelemetryData → Bool
unfolding has_critical_condition has_warning_condition
is_ready_entry_permitted d =
    if not d.bms_data_valid
    then false
    else if has_critical_condition d idle
    then false
    else if has_warning_condition d
    then false
    else if motor_driver_present && not d.motor_data_valid
    then false
    else true

-- The static strings of `readyRejectReason`, and the one that `run` uses for the actuator.
pub data RejectReason : Type 0 where
  bms_data_invalid critical_active warning_active motor_data_invalid unknown : RejectReason
  actuator_fault : RejectReason

unfoldable pub ready_reject_reason : TelemetryData → RejectReason
unfolding has_critical_condition has_warning_condition
ready_reject_reason d =
    if not d.bms_data_valid
    then bms_data_invalid
    else if has_critical_condition d idle
    then critical_active
    else if has_warning_condition d
    then warning_active
    else if motor_driver_present && not d.motor_data_valid
    then motor_data_invalid
    else unknown
