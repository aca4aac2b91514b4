-- ===== src/Safety/Units.antt =====
-- The unit of the cell extremes: frames carry tenths of a millivolt, the thresholds millivolts.
use tufan_aks.Base.{◌≡◌, ◌≤◌, ◌*◌, true, false, arith}
use tufan_aks.Data.{TelemetryData}
use tufan_aks.Safety.{VcuState, has_critical_condition, is_ready_entry_permitted}

-- A cell's highest and lowest voltage inside the specified 2.5 V to 3.65 V, in the field's unit.
pub record CellsInSpec (d : TelemetryData) : Type 0 where
  pub min_in : 2500 * 10 ≤ d.bms_cell_voltage_min_deci_mv
  pub max_in : d.bms_cell_voltage_max_deci_mv ≤ 3650 * 10
  pub ordered : d.bms_cell_voltage_min_deci_mv ≤ d.bms_cell_voltage_max_deci_mv

-- Every snapshot with valid BMS and cell data whose cells lie inside the specification, in the
-- unit of the fields (0.1 mV), is found critical in every state, and READY is refused.
pub in_spec_cells_critical :
    (d : TelemetryData) (st : VcuState)
    → d.bms_data_valid ≡ true
    → d.cell_voltage_data_valid ≡ true
    → CellsInSpec d
    → (has_critical_condition d st ≡ true) × (is_ready_entry_permitted d ≡ false)
unfolding has_critical_condition is_ready_entry_permitted
in_spec_cells_critical d st v c s = (ground arith, ground arith)
