-- ===== src/Can/Debounce.antt =====
-- The debouncing of the motor's error flags (ESP_AKS/lib/CanManager/MotorFaultDebounce.h) over a
-- sequence of frames.
use tufan_aks.Base.{
  ℕ, zero, suc, ◌+◌, ◌≡◌, refl, ◌≢◌, ◌≤◌, ◌<◌, ◌↔◌, true, false, List, [], ◌∷◌, arith, leb, ltb,
  if◌then◌else◌, length, take, All,
}
use tufan_aks.Can.{motor_error_fault_confirmed}

-- The frames' flags, the newest first, and the counter after them.
pub count_after : ℕ → List ℕ → ℕ
count_after n [] = 0
count_after n (e ∷ older) = (motor_error_fault_confirmed e (count_after n older) n).1

abbrev pub IsError : ℕ → Type 0
IsError e = e ≢ 0

confirmed_zero : (c n : ℕ) → motor_error_fault_confirmed 0 c n ≡ (false, 0)
unfolding motor_error_fault_confirmed
confirmed_zero c n = refl

confirmed_error :
    (e c n : ℕ)
    → IsError e
    → ((motor_error_fault_confirmed e c n).0 ≡ leb n (motor_error_fault_confirmed e c n).1)
      × ((motor_error_fault_confirmed e c n).1 ≡ (if ltb c 65535 then c + 1 else c))
unfolding motor_error_fault_confirmed
confirmed_error e c n h = ground arith

-- The counter reaches k, for k up to 65535, exactly if the k newest frames exist and report errors.
count_reaches :
    (n k : ℕ) (es : List ℕ)
    → k ≤ 65535
    → (k ≤ count_after n es) ↔ ((k ≤ length es) × All IsError (take k es))
unfolding count_after
count_reaches n zero es hk = (λ h. (omega arith, tt), λ h. omega arith)
count_reaches n (suc k) [] hk = (λ h. absurd (omega arith), λ h. absurd (omega arith))
count_reaches n (suc k) (zero ∷ older) hk =
    (λ h. absurd (ground (arith, confirmed_zero (count_after n older) n)), λ h. absurd (h.1.0 refl))
count_reaches n (suc k) (suc e ∷ older) hk =
    let ih = count_reaches n k older (omega arith) in
    let s = confirmed_error (suc e) (count_after n older) n (λ z. omega arith) in
    (
      λ h. let r = ih.0 (ground arith) in (omega (arith, r.0), (λ z. omega arith, r.1)),
      λ h. let r = ih.1 (omega (arith, h.0), h.1.1) in ground arith,
    )

-- The newest flags are confirmed as a fault exactly if at least n frames have come and the n newest
-- all report an error, for a debounce of n frames, 0 < n ≤ 65535; a count is kept in 16 bits.
pub confirmed_iff :
    (n e : ℕ) (older : List ℕ)
    → 0 < n
    → n ≤ 65535
    → ((motor_error_fault_confirmed e (count_after n older) n).0 ≡ true)
      ↔ ((n ≤ length (e ∷ older)) × All IsError (take n (e ∷ older)))
unfolding count_after
confirmed_iff n zero older h0 hn = (
  λ h. absurd (ground (arith, confirmed_zero (count_after n older) n)),
  λ h. absurd (no_zero n older h0 h.1),
)
  where
    no_zero : (n : ℕ) (older : List ℕ) → 0 < n → ¬ All IsError (take n (zero ∷ older))
    no_zero zero older h0 a = absurd (omega arith)
    no_zero (suc n) older h0 a = a.0 refl
confirmed_iff n (suc e) older h0 hn =
    let s = confirmed_error (suc e) (count_after n older) n (λ z. omega arith) in
    let r = count_reaches n n (suc e ∷ older) hn in
    (λ h. r.0 (ground arith), λ h. let c = r.1 h in ground arith)
