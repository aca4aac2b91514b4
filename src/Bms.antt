-- ===== src/Bms.antt =====
-- The battery algorithm of ESP_AKS/lib/BmsAlgo/BmsAlgo.cpp on the pack of ESP_AKS/lib/BmsModel. The
-- arrays of 24 cells are lists, never empty; sums are uint32_t.
pub mod Extremes
pub mod Charge
pub mod Balance
mod Tests
use tufan_aks.Base.{
  ℕ, ◌+◌, ◌-◌, ◌*◌, ◌/◌, ◌%◌, leb, ltb, Bool, true, false, not, ◌||◌, if◌then◌else◌, List, [], ◌∷◌,
  map, replicate, get_or,
}
use tufan_aks.Base.Int.{ℤ, pos, leb_ℤ, ltb_ℤ}
use tufan_aks.Base.Words.{u32_mod}

pub record PackData : Type 0 where
  pub cell_voltage_mv : List ℕ  -- uint16[24]
  pub cell_temp_c : List ℤ  -- int16[24]
  pub pack_current_ma : ℤ  -- int32
  pub is_valid : Bool
  pub cell_data_valid : Bool

pub record Computed : Type 0 where
  pub pack_voltage_mv : ℕ
  pub cell_max_mv : ℕ
  pub cell_min_mv : ℕ
  pub cell_max_index : ℕ
  pub cell_min_index : ℕ
  pub cell_delta_mv : ℕ
  pub soc_percent : ℕ
  pub balance_flag : List Bool
  pub warning_level : ℕ
  pub temp_max_c : ℤ
  pub temp_min_c : ℤ

abbrev pub warn_ok : ℕ
warn_ok = 0

abbrev pub warn_warning : ℕ
warn_warning = 1

abbrev pub warn_critical : ℕ
warn_critical = 2

abbrev pub warn_no_data : ℕ
warn_no_data = 3

-- A result that is 0 but for its level.
abbrev pub zero_computed : ℕ → Computed
zero_computed level = record {
  pack_voltage_mv = 0;
  cell_max_mv = 0;
  cell_min_mv = 0;
  cell_max_index = 0;
  cell_min_index = 0;
  cell_delta_mv = 0;
  soc_percent = 0;
  balance_flag = replicate 24 false;
  warning_level = level;
  temp_max_c = pos 0;
  temp_min_c = pos 0;
}

abbrev pub make_safe_invalid : Computed
make_safe_invalid = zero_computed warn_critical

abbrev pub make_no_cell_data : Computed
make_no_cell_data = zero_computed warn_no_data

pub soc_from_avg_mv : ℕ → ℕ
soc_from_avg_mv avg =
    if leb avg 2500 then 0 else if leb 3650 avg then 100 else (avg - 2500) * 100 / 1150

-- The variables of the loop that concern voltages.
pub record Scan : Type 0 where
  pub sum_mv : ℕ
  pub max_mv : ℕ
  pub min_mv : ℕ
  pub max_idx : ℕ
  pub min_idx : ℕ

pub scan_step : ℕ → ℕ → Scan → Scan
scan_step i v a = record {
  sum_mv = (a.sum_mv + v) % u32_mod;
  max_mv = if ltb a.max_mv v then v else a.max_mv;
  min_mv = if ltb v a.min_mv then v else a.min_mv;
  max_idx = if ltb a.max_mv v then i else a.max_idx;
  min_idx = if ltb v a.min_mv then i else a.min_idx;
}

-- The loop from the index i on, over the cells that are left.
pub scan : ℕ → List ℕ → Scan → Scan
scan i [] a = a
scan i (v ∷ vs) a = scan (i + 1) vs (scan_step i v a)

pub scan_start : ℕ → Scan
scan_start v = record { sum_mv = 0; max_mv = v; min_mv = v; max_idx = 0; min_idx = 0 }

pub temp_max : ℤ → List ℤ → ℤ
temp_max t [] = t
temp_max t (x ∷ xs) = temp_max (if ltb_ℤ t x then x else t) xs

pub temp_min : ℤ → List ℤ → ℤ
temp_min t [] = t
temp_min t (x ∷ xs) = temp_min (if ltb_ℤ x t then x else t) xs

pub balance_flags : ℕ → ℕ → List ℕ → List Bool
balance_flags max_mv delta cells =
    if ltb 50 delta
    then map (λ v. leb (if ltb 5 max_mv then max_mv - 5 else 0) v) cells
    else replicate 24 false

pub warning_of : ℕ → ℕ → ℤ → ℕ
warning_of min_mv max_mv t =
    if ltb min_mv 2500 || ltb 3650 max_mv || leb_ℤ (pos 70) t
    then warn_critical
    else if ltb min_mv 2800 || ltb 3550 max_mv || leb_ℤ (pos 55) t
    then warn_warning
    else warn_ok

-- The part of `computePack` after the two early returns.
pub compute_cells : PackData → Computed
compute_cells p =
    let s = scan 0 p.cell_voltage_mv (scan_start (get_or p.cell_voltage_mv 0 0)) in
    let t = temp_max (get_or p.cell_temp_c 0 (pos 0)) p.cell_temp_c in
    record {
      pack_voltage_mv = s.sum_mv;
      cell_max_mv = s.max_mv;
      cell_min_mv = s.min_mv;
      cell_max_index = s.max_idx;
      cell_min_index = s.min_idx;
      cell_delta_mv = s.max_mv - s.min_mv;
      soc_percent = soc_from_avg_mv (s.sum_mv / 24);
      balance_flag = balance_flags s.max_mv (s.max_mv - s.min_mv) p.cell_voltage_mv;
      warning_level = warning_of s.min_mv s.max_mv t;
      temp_max_c = t;
      temp_min_c = temp_min (get_or p.cell_temp_c 0 (pos 0)) p.cell_temp_c;
    }

pub compute_pack : PackData → Computed
compute_pack p =
    if not p.is_valid
    then make_safe_invalid
    else if not p.cell_data_valid
    then make_no_cell_data
    else compute_cells p
