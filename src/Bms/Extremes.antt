-- ===== src/Bms/Extremes.antt =====
-- The extremes and the sum that ESP_AKS/lib/BmsAlgo/BmsAlgo.cpp computes in one pass.
use tufan_aks.Base.{
  ℕ, suc, ◌+◌, ◌*◌, ◌%◌, ◌≡◌, refl, ◌≤◌, ◌<◌, ◌∙◌, ap, sym, arith, true, List, [], ◌∷◌, All, length,
  get_or, subst,
}
use tufan_aks.Base.Words.{u32_mod}
use tufan_aks.Bms.{
  PackData, Computed, Scan, scan, scan_step, scan_start, compute_cells, compute_pack,
}

abbrev pub total : List ℕ → ℕ
total [] = 0
total (v ∷ vs) = v + total vs

abbrev pub Within : ℕ → ℕ → List ℕ → Type 0
Within lo hi = All (λ v. (lo ≤ v) × (v ≤ hi))

scan-Within :
    (i : ℕ) (vs : List ℕ) (a : Scan)
    → let r = scan i vs a in
      (r.min_mv ≤ a.min_mv) × (a.max_mv ≤ r.max_mv) × Within r.min_mv r.max_mv vs
unfolding scan scan_step
scan-Within i [] a = (omega arith, omega arith, tt)
scan-Within i (v ∷ vs) a =
    let ih = scan-Within (i + 1) vs (scan_step i v a) in
    (
      ground (arith, ih.0),
      ground (arith, ih.1),
      ((ground (arith, ih.0), ground (arith, ih.1)), ih.2),
    )

-- The extremes of a scan stand in the list at their indices.
abbrev Attained : List ℕ → Scan → Type 0
Attained ws a = (get_or ws a.max_idx 0 ≡ a.max_mv) × (get_or ws a.min_idx 0 ≡ a.min_mv)

step-Attained :
    (ws : List ℕ) (i v : ℕ) (a : Scan)
    → get_or ws i 0 ≡ v
    → Attained ws a
    → Attained ws (scan_step i v a)
unfolding scan_step
step-Attained ws i v a h (p, q) = (ground arith, ground arith)

scan-Attained :
    (ws : List ℕ) (i : ℕ) (vs : List ℕ) (a : Scan)
    → ((j : ℕ) → get_or ws (i + j) 0 ≡ get_or vs j 0)
    → Attained ws a
    → Attained ws (scan i vs a)
unfolding scan
scan-Attained ws i [] a h k = k
scan-Attained ws i (v ∷ vs) a h k =
    scan-Attained ws (i + 1) vs (scan_step i v a)
      (λ j. let e : i + 1 + j ≡ i + suc j = omega arith in ap (λ n. get_or ws n 0) e ∙ h (suc j))
      (step-Attained ws i v a (let e : i ≡ i + 0 = omega arith in ap (λ n. get_or ws n 0) e ∙ h 0)
        k)

scan-total :
    (i : ℕ) (vs : List ℕ) (a : Scan)
    → a.sum_mv + total vs < u32_mod
    → (scan i vs a).sum_mv ≡ a.sum_mv + total vs
unfolding scan scan_step
scan-total i [] a h = omega arith
scan-total i (v ∷ vs) a h =
    let e : (a.sum_mv + v) % u32_mod ≡ a.sum_mv + v = omega arith in
    scan-total (i + 1) vs (scan_step i v a) (omega (arith, e)) ∙ omega (arith, e)

total_bound : (vs : List ℕ) → All (λ v. v < 65536) vs → total vs ≤ 65535 * length vs
total_bound [] h = omega arith
total_bound (v ∷ vs) h = omega (arith, h.0, total_bound vs h.1)

pub compute_valid :
    (p : PackData) → p.is_valid ≡ true → p.cell_data_valid ≡ true → compute_pack p ≡ compute_cells p
unfolding compute_pack
compute_valid p v c = rw (v, c) refl

-- The voltage of the pack is the sum of the cells, every cell lies between the extremes, each extreme is
-- the voltage of the cell at its index, and the difference is that of the extremes.
abbrev pub IsSummary : List ℕ → Computed → Type 0
IsSummary cells c =
    (c.pack_voltage_mv ≡ total cells)
    × Within c.cell_min_mv c.cell_max_mv cells
    × (get_or cells c.cell_max_index 0 ≡ c.cell_max_mv)
    × (get_or cells c.cell_min_index 0 ≡ c.cell_min_mv)
    × (c.cell_min_mv + c.cell_delta_mv ≡ c.cell_max_mv)

pub compute_cells-IsSummary :
    (p : PackData)
    → length p.cell_voltage_mv ≡ 24
    → All (λ v. v < 65536) p.cell_voltage_mv
    → IsSummary p.cell_voltage_mv (compute_cells p)
unfolding compute_cells scan_start
compute_cells-IsSummary p n b =
    let vs = p.cell_voltage_mv in
    let a = scan_start (get_or vs 0 0) in
    let w = scan-Within 0 vs a in
    let k =
      scan-Attained vs 0 vs a (λ j. let e : 0 + j ≡ j = omega arith in ap (λ n. get_or vs n 0) e)
        (refl, refl) in
    let z : 0 + total vs ≡ total vs = omega arith in
    (
      scan-total 0 vs a (omega (arith, total_bound vs b)) ∙ z,
      w.2,
      k.0,
      k.1,
      omega (arith, w.0, w.1),
    )

-- A valid pack with valid data of 24 cells of 16 bits: the voltage of the pack is the sum of the cells,
-- every cell lies between the lowest and the highest voltage reported, each of these is the voltage of
-- the cell at the index reported with it, and the difference reported is that of the two.
pub compute_pack-IsSummary :
    (p : PackData)
    → p.is_valid ≡ true
    → p.cell_data_valid ≡ true
    → length p.cell_voltage_mv ≡ 24
    → All (λ v. v < 65536) p.cell_voltage_mv
    → IsSummary p.cell_voltage_mv (compute_pack p)
compute_pack-IsSummary p v c n b =
    subst (IsSummary p.cell_voltage_mv) (sym (compute_valid p v c)) (compute_cells-IsSummary p n b)
