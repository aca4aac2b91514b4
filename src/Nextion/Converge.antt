-- ===== src/Nextion/Converge.antt =====
-- What the display shows after repeated calls of `buildBmsNextionCommands` with the same data,
-- ESP_AKS/lib/BmsAlgo/BmsNextionPacket.cpp.
use tufan_aks.Base.{ℕ, zero, suc, ◌+◌, ◌≡◌, ◌≤◌, ◌∙◌, arith, true, false, map, ◌⊎◌, inl, inr}
use tufan_aks.Base.Decimal.{codes}
use tufan_aks.Bms.{PackData, Computed}
use tufan_aks.Nextion.{
  NextionCache, Sync, new_sync, sync_arrays, sync_summary, build_bms_nextion_commands,
  cell_bar_fill,
}
use tufan_aks.Nextion.Progress.{Progress, Progress-then, cells-keep}
use tufan_aks.Nextion.Stale.{
  IsShowable, IsCache, Shows, flag_values, stale_arrays, stale_summary, arrays-Progress,
  summary-Progress, stale-le, fresh-Shows,
}

-- The cache after n calls that update the cells.
abbrev pub refreshed : ℕ → ℕ → Computed → PackData → NextionCache → NextionCache
refreshed max_bytes zero comp raw c = c
refreshed max_bytes (suc n) comp raw c =
    (build_bms_nextion_commands max_bytes false true comp raw (refreshed max_bytes n comp raw c)).0

module _ (max_bytes : ℕ) (room : 25 ≤ max_bytes) (comp : Computed) (raw : PackData)
    (ok : IsShowable comp raw) where
  stale : NextionCache → ℕ
  stale c = stale_arrays comp raw c + stale_summary comp raw c

  build-Progress :
      (c : NextionCache)
      → let r = build_bms_nextion_commands max_bytes false true comp raw c in
        Progress (stale c) (stale (r.0)) new_sync (r.1)
  unfolding build_bms_nextion_commands sync_arrays sync_summary stale_arrays stale_summary stale
  build-Progress c =
      let a = sync_arrays max_bytes false comp raw c new_sync in
      let b = sync_summary max_bytes false comp (a.0) (a.1) in
      Progress-then (stale_arrays comp raw c) (stale_arrays comp raw (a.0))
        (stale_summary comp raw (a.0)) (stale_summary comp raw (b.0)) new_sync (a.1) (b.1)
        (arrays-Progress max_bytes room comp raw ok c new_sync)
        (summary-Progress max_bytes room comp raw ok (a.0) (a.1))

  build-IsCache :
      (c : NextionCache)
      → IsCache c
      → IsCache (build_bms_nextion_commands max_bytes false true comp raw c).0
  unfolding build_bms_nextion_commands sync_arrays sync_summary
  build-IsCache c (x, y, z) = (
    cells-keep max_bytes (codes "cell") 0 raw.cell_voltage_mv c.cell_voltages new_sync ∙ x,
    cells-keep max_bytes (codes "j") 0 (map cell_bar_fill raw.cell_voltage_mv) c.cell_bar_fills _
        ∙ y,
    cells-keep max_bytes (codes "bal") 0 (flag_values comp.balance_flag) c.balance_flags _ ∙ z,
  )

  refreshed-IsCache :
      (n : ℕ) (c : NextionCache) → IsCache c → IsCache (refreshed max_bytes n comp raw c)
  refreshed-IsCache zero c i = i
  refreshed-IsCache (suc n) c i =
      build-IsCache (refreshed max_bytes n comp raw c) (refreshed-IsCache n c i)

  -- Each call leaves less to send, if there was anything.
  less_stale :
      (n a b : ℕ) (s t : Sync)
      → Progress a b new_sync t
      → (a ≡ 0) ⊎ (a + n ≤ 75)
      → (b ≡ 0) ⊎ (b + suc n ≤ 75)
  less_stale n a b s t (inl (x, y, e)) h = inl y
  less_stale n a b s t (inr (x, y)) (inl z) = absurd (omega arith)
  less_stale n a b s t (inr (x, y)) (inr l) = inr (omega arith)

  refreshed-stale :
      (n : ℕ) (c : NextionCache)
      → (stale (refreshed max_bytes n comp raw c) ≡ 0)
        ⊎ (stale (refreshed max_bytes n comp raw c) + n ≤ 75)
  unfolding stale
  refreshed-stale zero c = inr (omega (arith, stale-le comp raw c ok))
  refreshed-stale (suc n) c =
      let d = refreshed max_bytes n comp raw c in
      less_stale n (stale d) _ new_sync _ (build-Progress d) (refreshed-stale n c)

  nothing_sent : (a b : ℕ) (t : Sync) → Progress a b new_sync t → a ≡ 0 → t ≡ new_sync
  nothing_sent a b t (inl (x, y, e)) z = e
  nothing_sent a b t (inr (x, y)) z = absurd (omega arith)

  pub display_converges :
      (c : NextionCache)
      → IsCache c
      → let d = refreshed max_bytes 75 comp raw c in
        Shows comp raw d
        × ((build_bms_nextion_commands max_bytes false true comp raw d).1 ≡ new_sync)
  unfolding stale
  display_converges c i =
      let d = refreshed max_bytes 75 comp raw c in
      let z = all_sent (stale d) (refreshed-stale 75 c) in
      (
        fresh-Shows comp raw d ok (refreshed-IsCache 75 c i) z,
        nothing_sent (stale d) _ _ (build-Progress d) z,
      )
    where
      all_sent : (a : ℕ) → (a ≡ 0) ⊎ (a + 75 ≤ 75) → a ≡ 0
      all_sent a (inl e) = e
      all_sent a (inr l) = omega arith
