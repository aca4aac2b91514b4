-- ===== src/Nextion.antt =====
-- The commands for the pack on the display, ESP_AKS/lib/BmsAlgo/BmsNextionPacket.cpp. The injected callback
-- has no result: what it is called with, in order, is a field of the state.
pub mod Budget
pub mod Converge
pub mod Progress
pub mod Stale
mod Tests
use tufan_aks.Base.{
  ℕ, ◌+◌, ◌-◌, ◌*◌, ◌/◌, ◌==◌, leb, ltb, Bool, true, false, not, ◌||◌, if◌then◌else◌, List, [], ◌∷◌,
  ◌++◌, map, length, replicate,
}
use tufan_aks.Base.Decimal.{codes, print_unsigned}
use tufan_aks.Bms.{PackData, Computed}

-- 65535 stands for no data.
unfoldable pub cell_bar_fill : ℕ → ℕ
cell_bar_fill mv =
    if mv == 65535
    then 0
    else if leb mv 2500
    then 0
    else if leb 3650 mv
    then 100
    else (mv - 2500) * 100 / 1150

pub record NextionCache : Type 0 where
  pub cell_voltages : List ℕ  -- uint16[24]
  pub cell_bar_fills : List ℕ  -- uint8[24]
  pub balance_flags : List ℕ  -- uint8[24]
  pub cell_max_mv : ℕ
  pub cell_min_mv : ℕ
  pub warning_level : ℕ
  pub is_warm : Bool

abbrev pub new_cache : NextionCache
new_cache = record {
  cell_voltages = replicate 24 0;
  cell_bar_fills = replicate 24 255;
  balance_flags = replicate 24 255;
  cell_max_mv = 0;
  cell_min_mv = 0;
  warning_level = 255;
  is_warm = false;
}

-- The local variables of a call, and the commands given to the callback.
pub record Sync : Type 0 where
  pub current_bytes : ℕ
  pub budget_exhausted : Bool
  pub all_processed : Bool
  pub commands : List (List ℕ)

abbrev pub new_sync : Sync
new_sync = record {
  current_bytes = 0;
  budget_exhausted = false;
  all_processed = true;
  commands = [];
}

-- `name` and `index`, as in "cell7.val=3300"
pub cell_command : List ℕ → ℕ → ℕ → List ℕ
cell_command name index value =
    name ++ (print_unsigned index ++ (codes ".val=" ++ print_unsigned value))

pub summary_command : List ℕ → ℕ → List ℕ
summary_command name value = name ++ (codes ".val=" ++ print_unsigned value)

module _ (max_bytes : ℕ) where
  pub emit_and_check : List ℕ → Sync → Bool × Sync
  emit_and_check command s =
      if s.budget_exhausted
      then (false, s)
      else if ltb max_bytes (s.current_bytes + length command + 3)
      then (false, record s { budget_exhausted = true })
      else (
        true,
        record s {
          current_bytes = s.current_bytes + (length command + 3);
          commands = s.commands ++ (command ∷ []);
        },
      )

module _ (max_bytes : ℕ) (force : Bool) where
  -- One value: the value in the cache afterwards.
  pub sync_value : List ℕ → ℕ → ℕ → Sync → ℕ × Sync
  sync_value command value cached s =
      if force || not (value == cached)
      then (if (emit_and_check max_bytes command s).0
          then (value, (emit_and_check max_bytes command s).1)
          else (cached, record (emit_and_check max_bytes command s).1 { all_processed = false }))
      else (cached, s)

  -- One of the three loops, from the index i on, over the cells that are left.
  pub sync_cells : List ℕ → ℕ → List ℕ → List ℕ → Sync → List ℕ × Sync
  sync_cells name i [] cached s = (cached, s)
  sync_cells name i (v ∷ vs) [] s = ([], s)
  sync_cells name i (v ∷ vs) (c ∷ cs) s =
      let r = sync_value (cell_command name i v) v c s in
      let rest = sync_cells name (i + 1) vs cs (r.1) in (r.0 ∷ rest.0, rest.1)

  -- The three loops.
  pub sync_arrays : Computed → PackData → NextionCache → Sync → NextionCache × Sync
  sync_arrays comp raw cache s =
      let a = sync_cells (codes "cell") 0 raw.cell_voltage_mv cache.cell_voltages s in
      let b =
        sync_cells (codes "j") 0 (map cell_bar_fill raw.cell_voltage_mv) cache.cell_bar_fills
          (a.1) in
      let c =
        sync_cells (codes "bal") 0 (map (λ f. if f then 1 else 0) comp.balance_flag)
          cache.balance_flags (b.1) in
      (record cache { cell_voltages = a.0; cell_bar_fills = b.0; balance_flags = c.0 }, c.1)

  -- The fields of the summary.
  pub sync_summary : Computed → NextionCache → Sync → NextionCache × Sync
  sync_summary comp cache s =
      let a =
        sync_value (summary_command (codes "cellmax") comp.cell_max_mv) comp.cell_max_mv
          cache.cell_max_mv s in
      let b =
        sync_value (summary_command (codes "cellmin") comp.cell_min_mv) comp.cell_min_mv
          cache.cell_min_mv (a.1) in
      let c =
        sync_value (summary_command (codes "warn") comp.warning_level) comp.warning_level
          cache.warning_level (b.1) in
      (record cache { cell_max_mv = a.0; cell_min_mv = b.0; warning_level = c.0 }, c.1)

  pub build_bms_nextion_commands : Bool → Computed → PackData → NextionCache → NextionCache × Sync
  build_bms_nextion_commands update_cells comp raw cache =
      let must = update_cells || force || not cache.is_warm in
      let a = if must then sync_arrays comp raw cache new_sync else (cache, new_sync) in
      let b = sync_summary comp (a.0) (a.1) in
      (record (b.0) { is_warm = if (b.1).all_processed then true else cache.is_warm }, b.1)
