-- ===== src/Nextion/Tests.antt =====
-- The display's theorems for a pack of 24 equal cells and an empty display.
use tufan_aks.Base.{◌≤◌, true, replicate}
use tufan_aks.Base.Int.{pos}
use tufan_aks.Bms.{PackData, Computed, zero_computed}
use tufan_aks.Nextion.{new_cache, build_bms_nextion_commands}
use tufan_aks.Nextion.Budget.{line_bytes, build-within}

abbrev raw : PackData
raw = record {
  cell_voltage_mv = replicate 24 3300;
  cell_temp_c = replicate 24 (pos 0);
  pack_current_ma = pos 0;
  is_valid = true;
  cell_data_valid = true;
}

abbrev computed : Computed
computed = record (zero_computed 0) { cell_max_mv = 3300; cell_min_mv = 3300 }

build-within_example :
    line_bytes (build_bms_nextion_commands 90 true true computed raw new_cache).1.commands ≤ 90
build-within_example = build-within 90 true true computed raw new_cache
