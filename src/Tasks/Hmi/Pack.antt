-- ===== src/Tasks/Hmi/Pack.antt =====
-- What the display shows of a pack that is not known, the display task of ESP_AKS/src/main.cpp.
use tufan_aks.Base.{
  ℕ, zero, suc, ◌<◌, ◌≡◌, refl, arith, true, false, replicate, All, Option, none, some, subst, sym,
}
use tufan_aks.Data.{TelemetryData}
use tufan_aks.Bms.{warn_critical}
use tufan_aks.Nextion.{NextionCache, new_sync, build_bms_nextion_commands, cell_bar_fill}
use tufan_aks.Nextion.Stale.{IsShowable, IsCache, Shows}
use tufan_aks.Nextion.Converge.{refreshed, display_converges}
use tufan_aks.Display.Helpers.{cell_voltage_no_data}
use tufan_aks.Tasks.Hmi.{pack_of, raw_unknown, computed_unknown}

sentinels_fit : (n : ℕ) → All (λ v. v < 65536) (replicate n cell_voltage_no_data)
sentinels_fit zero = tt
sentinels_fit (suc n) = (omega arith, sentinels_fit n)

unknown-IsShowable : IsShowable computed_unknown raw_unknown
unknown-IsShowable = record {
  cells_24 = refl;
  flags_24 = refl;
  cells_fit = sentinels_fit 24;
  max_fits = omega arith;
  min_fits = omega arith;
  level_fits = omega arith;
}

-- No pack, or one whose BMS data are not valid.
abbrev pub IsUnknown : Option TelemetryData → Type 0
IsUnknown none = Unit
IsUnknown (some d) = d.bms_data_valid ≡ false

unknown_pack :
    (snapshot : Option TelemetryData)
    → IsUnknown snapshot
    → pack_of snapshot ≡ (raw_unknown, computed_unknown)
unfolding pack_of
unknown_pack none u = refl
unknown_pack (some d) u = rw u refl

-- A display on which nothing of the pack is a number: 24 cells without data, with empty bars and no
-- balancing, no extremes, and the critical level.
abbrev pub Blank : NextionCache → Type 0
Blank c =
    (c.cell_voltages ≡ replicate 24 65535)
    × (c.cell_bar_fills ≡ replicate 24 0)
    × (c.balance_flags ≡ replicate 24 0)
    × (c.cell_max_mv ≡ 65535)
    × (c.cell_min_mv ≡ 65535)
    × (c.warning_level ≡ warn_critical)

Shows-unknown-Blank : (c : NextionCache) → Shows computed_unknown raw_unknown c → Blank c
unfolding cell_bar_fill
Shows-unknown-Blank c s = s

-- Old values do not stay on the display. Without a snapshot, or with one whose BMS data are not valid, and with any
-- cache of 24 cells: after 75 rounds that update the cells, with a budget of 90 bytes each, the display shows no
-- value of a cell, and nothing is left to be sent.
pub unknown_shown :
    (snapshot : Option TelemetryData) (c : NextionCache)
    → IsUnknown snapshot
    → IsCache c
    → let p = pack_of snapshot in
      let d = refreshed 90 75 (p.1) (p.0) c in
      Blank d × ((build_bms_nextion_commands 90 false true (p.1) (p.0) d).1 ≡ new_sync)
unknown_shown snapshot c u i =
    subst
      (λ p.
        Blank (refreshed 90 75 (p.1) (p.0) c)
        × ((build_bms_nextion_commands 90 false true (p.1) (p.0) (refreshed 90 75 (p.1) (p.0) c)).1
            ≡ new_sync))
      (sym (unknown_pack snapshot u))
      (let r =
          display_converges 90 (omega arith) computed_unknown raw_unknown unknown-IsShowable c i in
        (Shows-unknown-Blank (refreshed 90 75 computed_unknown raw_unknown c) (r.0), r.1))
