-- ===== src/Bms/Tests.antt =====
-- The battery algorithm on a concrete pack.
use tufan_aks.Base.{ℕ, refl, arith, true, List, ◌∷◌, replicate}
use tufan_aks.Base.Int.{pos}
use tufan_aks.Bms.{PackData, compute_pack}
use tufan_aks.Bms.Extremes.{IsSummary, compute_pack-IsSummary}
use tufan_aks.Bms.Balance.{IsBalanced, compute_pack-IsBalanced}

abbrev cells : List ℕ
cells = 3300 ∷ 3390 ∷ 3280 ∷ replicate 21 3310

abbrev pack : PackData
pack = record {
  cell_voltage_mv = cells;
  cell_temp_c = replicate 24 (pos 25);
  pack_current_ma = pos 1200;
  is_valid = true;
  cell_data_valid = true;
}

compute_pack-IsSummary_example : IsSummary cells (compute_pack pack)
compute_pack-IsSummary_example = compute_pack-IsSummary pack refl refl refl (ground arith)

compute_pack-IsBalanced_example : IsBalanced (compute_pack pack)
compute_pack-IsBalanced_example = compute_pack-IsBalanced pack refl refl refl (ground arith)
