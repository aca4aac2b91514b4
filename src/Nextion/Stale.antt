-- ===== src/Nextion/Stale.antt =====
-- What of the pack is out of date on the display, and what one call of `buildBmsNextionCommands` does about it,
-- ESP_AKS/lib/BmsAlgo/BmsNextionPacket.cpp.
use tufan_aks.Base.{
  ℕ, suc, ◌+◌, ◌≡◌, ◌≤◌, ◌<◌, refl, sym, ap, ◌∙◌, arith, Bool, true, false, if◌then◌else◌, List, [],
  ◌∷◌, length, map, All,
}
use tufan_aks.Base.Decimal.{codes}
use tufan_aks.Bms.{PackData, Computed}
use tufan_aks.Nextion.{
  NextionCache, Sync, sync_value, sync_cells, sync_arrays, sync_summary, summary_command,
  cell_bar_fill,
}
use tufan_aks.Nextion.Progress.{
  Progress, Progress-then, stale_value, stale_cells, value-Progress, cells-Progress, stale_cells-le,
  fresh_cells, fresh_value, stale_value-le, length-summary_command,
}

abbrev pub flag_values : List Bool → List ℕ
flag_values flags = map (λ f. if f then 1 else 0) flags

-- A pack of 24 cells whose values are of the types of the source's fields.
pub record IsShowable (comp : Computed) (raw : PackData) : Type 0 where
  pub cells_24 : length raw.cell_voltage_mv ≡ 24
  pub flags_24 : length comp.balance_flag ≡ 24
  pub cells_fit : All (λ v. v < 65536) raw.cell_voltage_mv
  pub max_fits : comp.cell_max_mv < 65536
  pub min_fits : comp.cell_min_mv < 65536
  pub level_fits : comp.warning_level < 256

abbrev pub IsCache : NextionCache → Type 0
IsCache c =
    (length c.cell_voltages ≡ 24) × (length c.cell_bar_fills ≡ 24) × (length c.balance_flags ≡ 24)

-- The display shows the pack, and nothing of it has to be sent.
abbrev pub Shows : Computed → PackData → NextionCache → Type 0
Shows comp raw c =
    (c.cell_voltages ≡ raw.cell_voltage_mv)
    × (c.cell_bar_fills ≡ map cell_bar_fill raw.cell_voltage_mv)
    × (c.balance_flags ≡ flag_values comp.balance_flag)
    × (c.cell_max_mv ≡ comp.cell_max_mv)
    × (c.cell_min_mv ≡ comp.cell_min_mv)
    × (c.warning_level ≡ comp.warning_level)

bar-le : (v : ℕ) → cell_bar_fill v < 65536
unfolding cell_bar_fill
bar-le v = ground arith

bars_fit : (vs : List ℕ) → All (λ v. v < 65536) (map cell_bar_fill vs)
bars_fit [] = tt
bars_fit (v ∷ vs) = (bar-le v, bars_fit vs)

flags_fit : (fs : List Bool) → All (λ v. v < 65536) (flag_values fs)
flags_fit [] = tt
flags_fit (true ∷ fs) = (omega arith, flags_fit fs)
flags_fit (false ∷ fs) = (omega arith, flags_fit fs)

pub length-map : {A : Type 0} (f : A → ℕ) (xs : List A) → length (map f xs) ≡ length xs
length-map f [] = refl
length-map f (x ∷ xs) = ap suc (length-map f xs)

module _ (comp : Computed) (raw : PackData) where
  unfoldable pub stale_arrays : NextionCache → ℕ
  stale_arrays c =
      stale_cells raw.cell_voltage_mv c.cell_voltages
      + stale_cells (map cell_bar_fill raw.cell_voltage_mv) c.cell_bar_fills
      + stale_cells (flag_values comp.balance_flag) c.balance_flags

  unfoldable pub stale_summary : NextionCache → ℕ
  stale_summary c =
      stale_value comp.cell_max_mv c.cell_max_mv
      + stale_value comp.cell_min_mv c.cell_min_mv
      + stale_value comp.warning_level c.warning_level

module _ (max_bytes : ℕ) (room : 25 ≤ max_bytes) (comp : Computed) (raw : PackData)
    (ok : IsShowable comp raw) where
  pub arrays-Progress :
      (c : NextionCache) (s : Sync)
      → let r = sync_arrays max_bytes false comp raw c s in
        Progress (stale_arrays comp raw c) (stale_arrays comp raw (r.0)) s (r.1)
  unfolding sync_arrays stale_arrays
  arrays-Progress c s =
      let vs = raw.cell_voltage_mv in
      let bs = map cell_bar_fill vs in
      let fs = flag_values comp.balance_flag in
      let x = sync_cells max_bytes false (codes "cell") 0 vs c.cell_voltages s in
      let y = sync_cells max_bytes false (codes "j") 0 bs c.cell_bar_fills (x.1) in
      let z = sync_cells max_bytes false (codes "bal") 0 fs c.balance_flags (y.1) in
      let p =
        cells-Progress max_bytes (codes "cell") 0 vs c.cell_voltages s (omega arith)
          (omega (arith, ok.cells_24)) ok.cells_fit room in
      let q =
        cells-Progress max_bytes (codes "j") 0 bs c.cell_bar_fills (x.1) (omega arith)
          (omega (arith, ok.cells_24, length-map cell_bar_fill vs)) (bars_fit vs) room in
      let w =
        cells-Progress max_bytes (codes "bal") 0 fs c.balance_flags (y.1) (omega arith)
          (omega
            (arith, ok.flags_24, length-map (λ (f : Bool). if f then 1 else 0) comp.balance_flag))
          (flags_fit comp.balance_flag) room in
      Progress-then _ _ _ _ s (y.1) (z.1) (Progress-then _ _ _ _ s (x.1) (y.1) p q) w

  pub summary-Progress :
      (c : NextionCache) (s : Sync)
      → let r = sync_summary max_bytes false comp c s in
        Progress (stale_summary comp raw c) (stale_summary comp raw (r.0)) s (r.1)
  unfolding sync_summary stale_summary
  summary-Progress c s =
      let x =
        sync_value max_bytes false (summary_command (codes "cellmax") comp.cell_max_mv)
          comp.cell_max_mv c.cell_max_mv s in
      let y =
        sync_value max_bytes false (summary_command (codes "cellmin") comp.cell_min_mv)
          comp.cell_min_mv c.cell_min_mv (x.1) in
      let z =
        sync_value max_bytes false (summary_command (codes "warn") comp.warning_level)
          comp.warning_level c.warning_level (y.1) in
      let p =
        value-Progress max_bytes (summary_command (codes "cellmax") comp.cell_max_mv)
          comp.cell_max_mv c.cell_max_mv s
          (let l =
              length-summary_command (codes "cellmax") comp.cell_max_mv (omega arith) ok.max_fits in
            omega arith) in
      let q =
        value-Progress max_bytes (summary_command (codes "cellmin") comp.cell_min_mv)
          comp.cell_min_mv c.cell_min_mv (x.1)
          (let l =
              length-summary_command (codes "cellmin") comp.cell_min_mv (omega arith) ok.min_fits in
            omega arith) in
      let w =
        value-Progress max_bytes (summary_command (codes "warn") comp.warning_level)
          comp.warning_level c.warning_level (y.1)
          (let l =
              length-summary_command (codes "warn") comp.warning_level (omega arith)
                (omega (arith, ok.level_fits)) in
            omega arith) in
      Progress-then _ _ _ _ s (y.1) (z.1) (Progress-then _ _ _ _ s (x.1) (y.1) p q) w

-- In a cache of 24 cells at most 75 values are out of date; if none is, the display shows the pack.
pub stale-le :
    (comp : Computed) (raw : PackData) (c : NextionCache)
    → IsShowable comp raw
    → stale_arrays comp raw c + stale_summary comp raw c ≤ 75
unfolding stale_arrays stale_summary
stale-le comp raw c ok =
    let vs = raw.cell_voltage_mv in
    omega (
      arith,
      ok.cells_24,
      ok.flags_24,
      stale_cells-le vs c.cell_voltages,
      stale_cells-le (map cell_bar_fill vs) c.cell_bar_fills,
      stale_cells-le (flag_values comp.balance_flag) c.balance_flags,
      length-map cell_bar_fill vs,
      length-map (λ (f : Bool). if f then 1 else 0) comp.balance_flag,
      stale_value-le comp.cell_max_mv c.cell_max_mv,
      stale_value-le comp.cell_min_mv c.cell_min_mv,
      stale_value-le comp.warning_level c.warning_level,
    )

pub fresh-Shows :
    (comp : Computed) (raw : PackData) (c : NextionCache)
    → IsShowable comp raw
    → IsCache c
    → stale_arrays comp raw c + stale_summary comp raw c ≡ 0
    → Shows comp raw c
unfolding stale_arrays stale_summary
fresh-Shows comp raw c ok (a, b, d) z =
    let vs = raw.cell_voltage_mv in
    (
      fresh_cells vs c.cell_voltages (ok.cells_24 ∙ sym a) (omega arith),
      fresh_cells (map cell_bar_fill vs) c.cell_bar_fills
          (length-map cell_bar_fill vs ∙ ok.cells_24 ∙ sym b) (omega arith),
      fresh_cells (flag_values comp.balance_flag) c.balance_flags
          (length-map (λ (f : Bool). if f then 1 else 0) comp.balance_flag ∙ ok.flags_24 ∙ sym d)
          (omega arith),
      fresh_value comp.cell_max_mv c.cell_max_mv (omega arith),
      fresh_value comp.cell_min_mv c.cell_min_mv (omega arith),
      fresh_value comp.warning_level c.warning_level (omega arith),
    )
