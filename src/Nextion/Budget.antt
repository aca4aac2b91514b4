-- ===== src/Nextion/Budget.antt =====
-- The bytes that a call of `buildBmsNextionCommands` gives out, ESP_AKS/lib/BmsAlgo/BmsNextionPacket.cpp.
use tufan_aks.Base.{
  ℕ, ◌+◌, ◌≡◌, ◌≤◌, refl, sym, subst, arith, Bool, true, false, not, ◌||◌, if◌then◌else◌, ltb, ◌==◌,
  List, [], ◌∷◌, ◌++◌, length, map, ◌⊎◌, inl, inr, Bool-cases,
}
use tufan_aks.Base.Decimal.{codes}
use tufan_aks.Bms.{PackData, Computed}
use tufan_aks.Nextion.{
  NextionCache, Sync, new_sync, emit_and_check, sync_value, sync_cells, sync_arrays, sync_summary,
  build_bms_nextion_commands, cell_command, summary_command, cell_bar_fill,
}

-- What goes over the line: each command and its three closing bytes.
abbrev pub line_bytes : List (List ℕ) → ℕ
line_bytes [] = 0
line_bytes (c ∷ cs) = length c + 3 + line_bytes cs

line_bytes-snoc :
    (cs : List (List ℕ)) (c : List ℕ) → line_bytes (cs ++ (c ∷ [])) ≡ line_bytes cs + (length c + 3)
line_bytes-snoc [] c = omega arith
line_bytes-snoc (d ∷ cs) c = omega (arith, line_bytes-snoc cs c)

module _ (max_bytes : ℕ) where
  -- The count is that of the commands, and within the budget.
  abbrev Within : Sync → Type 0
  Within s = (s.current_bytes ≡ line_bytes s.commands) × (s.current_bytes ≤ max_bytes)

  abbrev Leaves : (A : Type 0) → A × Sync → Type 0
  Leaves A p = Within (p.1)

  emit-Within :
      (command : List ℕ) (s : Sync) → Within s → Within (emit_and_check max_bytes command s).1
  unfolding emit_and_check
  emit-Within command s (e, l) =
      by_flag s.budget_exhausted (Bool-cases (ltb max_bytes (s.current_bytes + length command + 3)))
    where
      over : Sync
      over = record s { budget_exhausted = true }

      sent : Sync
      sent = record s {
        current_bytes = s.current_bytes + (length command + 3);
        commands = s.commands ++ (command ∷ []);
      }

      full : Bool
      full = ltb max_bytes (s.current_bytes + length command + 3)

      by_full :
          (full ≡ true) ⊎ (full ≡ false)
          → Leaves Bool (if full then (false, over) else (true, sent))
      by_full (inl h) =
          subst (λ b. Leaves Bool (if b then (false, over) else (true, sent))) (sym h) (e, l)
      by_full (inr h) =
          subst (λ b. Leaves Bool (if b then (false, over) else (true, sent))) (sym h)
            (omega (arith, e, line_bytes-snoc s.commands command), ground arith)

      by_flag :
          (b : Bool)
          → (full ≡ true) ⊎ (full ≡ false)
          → Leaves Bool (if b then (false, s) else if full then (false, over) else (true, sent))
      by_flag true c = (e, l)
      by_flag false c = by_full c

  module _ (force : Bool) where
    value-Within :
        (command : List ℕ) (v c : ℕ) (s : Sync)
        → Within s
        → Within (sync_value max_bytes force command v c s).1
    unfolding sync_value
    value-Within command v c s w =
        by_test (force || not (v == c)) (emit_and_check max_bytes command s).0
      where
        sent : Sync
        sent = (emit_and_check max_bytes command s).1

        by_test :
            (b done : Bool)
            → Leaves ℕ (
                if b
                then (if done then (v, sent) else (c, record sent { all_processed = false }))
                else (c, s))
        by_test true true = emit-Within command s w
        by_test true false = emit-Within command s w
        by_test false done = w

    cells-Within :
        (name : List ℕ) (i : ℕ) (vs cs : List ℕ) (s : Sync)
        → Within s
        → Within (sync_cells max_bytes force name i vs cs s).1
    unfolding sync_cells
    cells-Within name i [] cs s w = w
    cells-Within name i (v ∷ vs) [] s w = w
    cells-Within name i (v ∷ vs) (c ∷ cs) s w =
        cells-Within name (i + 1) vs cs _ (value-Within (cell_command name i v) v c s w)

    arrays-Within :
        (comp : Computed) (raw : PackData) (cache : NextionCache) (s : Sync)
        → Within s
        → Within (sync_arrays max_bytes force comp raw cache s).1
    unfolding sync_arrays
    arrays-Within comp raw cache s w =
        cells-Within (codes "bal") 0 (map (λ f. if f then 1 else 0) comp.balance_flag)
          cache.balance_flags _
          (cells-Within (codes "j") 0 (map cell_bar_fill raw.cell_voltage_mv) cache.cell_bar_fills _
            (cells-Within (codes "cell") 0 raw.cell_voltage_mv cache.cell_voltages s w))

    summary-Within :
        (comp : Computed) (cache : NextionCache) (s : Sync)
        → Within s
        → Within (sync_summary max_bytes force comp cache s).1
    unfolding sync_summary
    summary-Within comp cache s w =
        value-Within (summary_command (codes "warn") comp.warning_level) comp.warning_level
          cache.warning_level _
          (value-Within (summary_command (codes "cellmin") comp.cell_min_mv) comp.cell_min_mv
            cache.cell_min_mv _
            (value-Within (summary_command (codes "cellmax") comp.cell_max_mv) comp.cell_max_mv
              cache.cell_max_mv s w))

    -- Whatever the pack, the cache and the flags, the commands of one call, with the three closing bytes of
    -- each, are within the budget.
    pub build-within :
        (update_cells : Bool) (comp : Computed) (raw : PackData) (cache : NextionCache)
        → line_bytes
            (build_bms_nextion_commands max_bytes force update_cells comp raw cache).1.commands
          ≤ max_bytes
    unfolding build_bms_nextion_commands
    build-within update_cells comp raw cache = by_cells (update_cells || force || not cache.is_warm)
      where
        start : Within new_sync
        start = (refl, omega arith)

        by_cells :
            (must : Bool)
            → let a =
                if must
                then sync_arrays max_bytes force comp raw cache new_sync
                else (cache, new_sync) in
              line_bytes (sync_summary max_bytes force comp (a.0) (a.1)).1.commands ≤ max_bytes
        by_cells true =
            let a = sync_arrays max_bytes force comp raw cache new_sync in
            let w = summary-Within comp (a.0) (a.1) (arrays-Within comp raw cache new_sync start) in
            omega (arith, w.0, w.1)
        by_cells false = let w = summary-Within comp cache new_sync start in omega (arith, w.0, w.1)
