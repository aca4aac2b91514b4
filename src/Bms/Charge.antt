-- ===== src/Bms/Charge.antt =====
-- The state of charge of ESP_AKS/lib/BmsAlgo/BmsAlgo.cpp.
use tufan_aks.Base.{ℕ, ◌≤◌, arith}
use tufan_aks.Bms.{soc_from_avg_mv}

-- The state of charge is at most 100 and never falls with a rising average voltage.
pub soc_monotone :
    (a b : ℕ) → a ≤ b → (soc_from_avg_mv a ≤ soc_from_avg_mv b) × (soc_from_avg_mv b ≤ 100)
unfolding soc_from_avg_mv
soc_monotone a b h = (ground arith, ground arith)
