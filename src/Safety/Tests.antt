-- ===== src/Safety/Tests.antt =====
-- The safety predicates on concrete snapshots.
use tufan_aks.Base.{◌≡◌, refl, ◌↔◌, arith, true, false}
use tufan_aks.Data.{TelemetryData}
use tufan_aks.Fixtures.{healthy, overcharged}
use tufan_aks.Safety.{
  idle, drive, has_critical_condition, is_ready_entry_permitted, is_current_critical,
  is_temp_critical, cells_critical, reported_fault,
}
use tufan_aks.Safety.Bands.{ready_entry_iff, InOperatingBand}
use tufan_aks.Safety.Units.{in_spec_cells_critical, CellsInSpec}

overcharged_fault : reported_fault overcharged ≡ false
unfolding reported_fault
overcharged_fault = refl

overcharged_critical : has_critical_condition overcharged idle ≡ true
unfolding has_critical_condition is_current_critical is_temp_critical cells_critical reported_fault
overcharged_critical = refl

ready_entry_iff_example : (is_ready_entry_permitted healthy ≡ true) ↔ InOperatingBand healthy
ready_entry_iff_example = ready_entry_iff healthy

-- 3.3505 V and 3.3500 V, as the frames carry them.
abbrev measured : TelemetryData
measured = record healthy {
  bms_cell_voltage_max_deci_mv = 33505;
  bms_cell_voltage_min_deci_mv = 33500;
  cell_voltage_data_valid = true;
}

measured-InSpec : CellsInSpec measured
measured-InSpec = record { min_in = omega arith; max_in = omega arith; ordered = omega arith }

in_spec_cells_critical_example :
    (has_critical_condition measured drive ≡ true) × (is_ready_entry_permitted measured ≡ false)
in_spec_cells_critical_example = in_spec_cells_critical measured drive refl refl measured-InSpec
