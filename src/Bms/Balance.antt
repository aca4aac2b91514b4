-- ===== src/Bms/Balance.antt =====
-- The choice of the cells to discharge in ESP_AKS/lib/BmsAlgo/BmsAlgo.cpp.
use tufan_aks.Base.{
  ℕ, zero, suc, ◌-◌, ◌≡◌, ◌≢◌, refl, ◌≤◌, ◌<◌, ◌⊎◌, arith, Bool, true, false, leb, ltb, inl, inr,
  if◌then◌else◌, List, [], ◌∷◌, All, map, replicate, length, get_or, subst, sym,
}
use tufan_aks.Bms.{PackData, Computed, balance_flags, compute_cells, compute_pack}
use tufan_aks.Bms.Extremes.{IsSummary, compute_cells-IsSummary, compute_valid}

map-false :
    (f : ℕ → Bool) (cells : List ℕ) (i : ℕ)
    → f (get_or cells i 0) ≡ false
    → get_or (map f cells) i false ≡ false
map-false f [] i h = refl
map-false f (v ∷ vs) zero h = h
map-false f (v ∷ vs) (suc i) h = map-false f vs i h

map-true :
    (f : ℕ → Bool) (cells : List ℕ) (i : ℕ)
    → f (get_or cells i 0) ≡ true
    → get_or cells i 0 ≢ 0
    → get_or (map f cells) i false ≡ true
map-true f [] i h n = absurd (n refl)
map-true f (v ∷ vs) zero h n = h
map-true f (v ∷ vs) (suc i) h n = map-true f vs i h n

flags_off :
    (max_mv delta : ℕ) (cells : List ℕ)
    → delta ≤ 50
    → balance_flags max_mv delta cells ≡ replicate 24 false
unfolding balance_flags
flags_off max_mv delta cells h = let e : ltb 50 delta ≡ false = ground arith in rw e refl

abbrev in_margin : ℕ → ℕ → Bool
in_margin max_mv v = leb (if ltb 5 max_mv then max_mv - 5 else 0) v

flags_on :
    (max_mv delta : ℕ) (cells : List ℕ)
    → 50 < delta
    → balance_flags max_mv delta cells ≡ map (in_margin max_mv) cells
unfolding balance_flags
flags_on max_mv delta cells h = let e : ltb 50 delta ≡ true = ground arith in rw e refl

-- Nothing is discharged, or the difference is large and the choice leaves out the lowest cell.
abbrev pub IsBalanced : Computed → Type 0
IsBalanced c =
    ((c.cell_delta_mv ≤ 50) × (c.balance_flag ≡ replicate 24 false))
    ⊎ ((50 < c.cell_delta_mv)
        × (get_or c.balance_flag c.cell_max_index false ≡ true)
        × (get_or c.balance_flag c.cell_min_index false ≡ false))

compute_cells-IsBalanced :
    (p : PackData)
    → length p.cell_voltage_mv ≡ 24
    → All (λ v. v < 65536) p.cell_voltage_mv
    → IsBalanced (compute_cells p)
unfolding compute_cells
compute_cells-IsBalanced p n b = by_delta (small_or_large c.cell_delta_mv)
  where
    c : Computed
    c = compute_cells p

    cells : List ℕ
    cells = p.cell_voltage_mv

    s : IsSummary cells c
    s = compute_cells-IsSummary p n b

    small_or_large : (d : ℕ) → (d ≤ 50) ⊎ (50 < d)
    small_or_large d = ground arith

    top : 50 < c.cell_delta_mv → in_margin c.cell_max_mv (get_or cells c.cell_max_index 0) ≡ true
    top l = subst (λ v. in_margin c.cell_max_mv v ≡ true) (sym s.2) (ground arith)

    bottom :
        50 < c.cell_delta_mv → in_margin c.cell_max_mv (get_or cells c.cell_min_index 0) ≡ false
    bottom l = subst (λ v. in_margin c.cell_max_mv v ≡ false) (sym s.3) (ground (arith, s.4))

    flags : 50 < c.cell_delta_mv → c.balance_flag ≡ map (in_margin c.cell_max_mv) cells
    flags l = flags_on c.cell_max_mv c.cell_delta_mv cells l

    by_delta : (c.cell_delta_mv ≤ 50) ⊎ (50 < c.cell_delta_mv) → IsBalanced c
    by_delta (inl h) = inl (h, flags_off c.cell_max_mv c.cell_delta_mv cells h)
    by_delta (inr l) = inr (
      l,
      subst (λ f. get_or f c.cell_max_index false ≡ true) (sym (flags l))
          (map-true (in_margin c.cell_max_mv) cells c.cell_max_index (top l)
            (λ e. omega (arith, e, s.2, s.4, l))),
      subst (λ f. get_or f c.cell_min_index false ≡ false) (sym (flags l))
          (map-false (in_margin c.cell_max_mv) cells c.cell_min_index (bottom l)),
    )

-- A valid pack with valid data of 24 cells of 16 bits: if the highest and the lowest cell differ by at
-- most 50 mV no cell is discharged; if they differ by more, the cell reported as the highest is
-- discharged and the one reported as the lowest is not.
pub compute_pack-IsBalanced :
    (p : PackData)
    → p.is_valid ≡ true
    → p.cell_data_valid ≡ true
    → length p.cell_voltage_mv ≡ 24
    → All (λ v. v < 65536) p.cell_voltage_mv
    → IsBalanced (compute_pack p)
compute_pack-IsBalanced p v c n b =
    subst IsBalanced (sym (compute_valid p v c)) (compute_cells-IsBalanced p n b)
