-- ===== src/Safety/Bands.antt =====
-- How the predicates of ESP_AKS/lib/VcuLogic/VcuLogic.h relate to each other and to the bands of
-- the measured values.
use tufan_aks.Base.{◌≡◌, ◌≢◌, ◌⊎◌, ◌↔◌, ◌≤◌, ◌<◌, true, false, arith}
use tufan_aks.Base.Int.{pos, neg_ℕ, ◌≤ℤ◌}
use tufan_aks.Data.{TelemetryData}
use tufan_aks.Safety.{
  VcuState, idle, unknown, reported_fault, has_warning_condition, has_critical_condition,
  is_reset_interlock_satisfied, is_ready_entry_permitted, ready_reject_reason,
}

-- With valid BMS data and no fault reported, a condition that is critical even in IDLE is also a
-- warning condition.
pub critical-warning :
    (d : TelemetryData)
    → d.bms_data_valid ≡ true
    → reported_fault d ≡ false
    → has_critical_condition d idle ≡ true
    → has_warning_condition d ≡ true
unfolding has_critical_condition has_warning_condition
critical-warning d v r h = ground arith

-- What is critical in IDLE is critical in every state.
pub critical_in_idle :
    (d : TelemetryData) (st : VcuState)
    → has_critical_condition d idle ≡ true
    → has_critical_condition d st ≡ true
unfolding has_critical_condition
critical_in_idle d st h = ground arith

-- The values of a snapshot for which READY may be entered, written out.
pub record InOperatingBand (d : TelemetryData) : Type 0 where
  pub data_valid : d.bms_data_valid ≡ true
  pub no_motor_error : d.motor_error_flags ≡ 0
  pub no_system_fault : d.bms_system_state ≢ 4
  pub voltage_above : 720 < d.bms_pack_voltage_deci_v
  pub voltage_below : d.bms_pack_voltage_deci_v < 852
  pub temp_below : d.bms_temp_highest_c ≤ℤ pos 54
  pub charge_below : d.bms_current_centi_a ≤ℤ pos 1099
  pub discharge_below : neg_ℕ 899 ≤ℤ d.bms_current_centi_a
  pub cells_above : (d.cell_voltage_data_valid ≡ false) ⊎ (2800 ≤ d.bms_cell_voltage_min_deci_mv)
  pub cells_below : (d.cell_voltage_data_valid ≡ false) ⊎ (d.bms_cell_voltage_max_deci_mv ≤ 3550)

-- READY entry is permitted by the snapshots in the operating band, and by no other.
pub ready_entry_iff : (d : TelemetryData) → (is_ready_entry_permitted d ≡ true) ↔ InOperatingBand d
unfolding is_ready_entry_permitted
ready_entry_iff d = (λ h. ground arith, λ b. ground arith)

-- The reset interlock is satisfied exactly where nothing is critical in the current state.
pub reset_interlock_iff :
    (d : TelemetryData) (st : VcuState)
    → (is_reset_interlock_satisfied d st ≡ true) ↔ (has_critical_condition d st ≡ false)
unfolding is_reset_interlock_satisfied
reset_interlock_iff d st = (λ h. ground arith, λ h. ground arith)

-- The reason logged for a refusal is "unknown" exactly when entry was permitted, so that no
-- refusal by the snapshot is left unexplained.
pub reject_reason_iff :
    (d : TelemetryData) → (ready_reject_reason d ≡ unknown) ↔ (is_ready_entry_permitted d ≡ true)
unfolding ready_reject_reason is_ready_entry_permitted
reject_reason_iff d = (λ h. ground arith, λ h. ground arith)
