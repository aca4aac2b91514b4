-- ===== src/Can/Freshness.antt =====
-- The freshness of the two BMS messages (ESP_AKS/lib/CanManager/BmsFreshness.h), against the time
-- that has really passed.
use tufan_aks.Base.{ℕ, ◌≡◌, ◌≤◌, ◌<◌, ◌↔◌, ◌⊎◌, Bool, true, arith}
use tufan_aks.Base.Words.{add32, u32_mod, sub32-add32}
use tufan_aks.Can.{FreshnessResult, bms_id_fresh, bms_evaluate_freshness}

-- A message that came at tick t, d ticks ago, is fresh if it was seen and d is below the timeout.
fresh_iff :
    (seen : Bool) (t d timeout : ℕ)
    → t < u32_mod
    → d < u32_mod
    → (bms_id_fresh seen (add32 t d) t timeout ≡ true) ↔ ((seen ≡ true) × (d < timeout))
unfolding bms_id_fresh
fresh_iff seen t d timeout ht hd =
    let e = sub32-add32 t d ht hd in (λ h. ground arith, λ h. ground arith)

-- The clock reads now; message E000 came d0 ticks ago, at tick t0, and E001 came d1 ticks ago, at
-- t1, the four below 2^32 and the clock free to wrap in between. The BMS data are valid exactly if
-- both messages were seen and both came less than the timeout ago; the timeout is reported exactly
-- if one of the messages that were seen came the timeout ago or longer.
pub freshness_iff :
    (saw0 saw1 : Bool) (t0 d0 t1 d1 now timeout : ℕ)
    → t0 < u32_mod
    → d0 < u32_mod
    → t1 < u32_mod
    → d1 < u32_mod
    → now ≡ add32 t0 d0
    → now ≡ add32 t1 d1
    → ((FreshnessResult.data_valid (bms_evaluate_freshness saw0 t0 saw1 t1 now timeout) ≡ true)
        ↔ (((saw0 ≡ true) × (d0 < timeout)) × ((saw1 ≡ true) × (d1 < timeout))))
      × ((FreshnessResult.timeout_active (bms_evaluate_freshness saw0 t0 saw1 t1 now timeout)
            ≡ true)
          ↔ (((saw0 ≡ true) × (timeout ≤ d0)) ⊎ ((saw1 ≡ true) × (timeout ≤ d1))))
unfolding bms_evaluate_freshness
freshness_iff saw0 saw1 t0 d0 t1 d1 now timeout h0 g0 h1 g1 e0 e1 =
    let a = sub32-add32 t0 d0 h0 g0 in
    let b = sub32-add32 t1 d1 h1 g1 in
    ((λ h. ground arith, λ h. ground arith), (λ h. ground arith, λ h. ground arith))
