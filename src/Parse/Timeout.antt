-- ===== src/Parse/Timeout.antt =====
-- The freshness tests, against the time that has really passed.
use tufan_aks.Base.{ℕ, ◌≡◌, ◌≤◌, ◌<◌, ◌↔◌, Bool, true, arith}
use tufan_aks.Base.Words.{add32, u32_mod, sub32-add32}
use tufan_aks.Parse.{is_motor_status_timed_out, is_bms_status_timed_out}

-- With the clock at t when the last frame came and d ticks since, t and d below 2^32 and the clock
-- free to wrap in between: a stream is timed out exactly if it was seen, its data were valid, and
-- the timeout has passed; both tests agree.
pub timed_out_iff :
    (seen valid : Bool) (t d timeout : ℕ)
    → t < u32_mod
    → d < u32_mod
    → (is_motor_status_timed_out seen valid (add32 t d) t timeout
        ≡ is_bms_status_timed_out seen valid (add32 t d) t timeout)
      × ((is_bms_status_timed_out seen valid (add32 t d) t timeout ≡ true)
          ↔ ((seen ≡ true) × (valid ≡ true) × (timeout ≤ d)))
unfolding is_motor_status_timed_out is_bms_status_timed_out
timed_out_iff seen valid t d timeout ht hd =
    let e = sub32-add32 t d ht hd in (ground arith, (λ h. ground arith, λ h. ground arith))
