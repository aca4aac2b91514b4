-- ===== src/Tasks/Radio/Budget.antt =====
-- The link budget of ESP_AKS/include/SystemConfig.h over time: what the rounds of the radio task of
-- ESP_AKS/src/main.cpp offer to the UART between two moments.
use native.Mathlib.Nat.{mul-le-mul_right}
use tufan_aks.Base.{
  ℕ, leb, ◌+◌, ◌-◌, ◌*◌, ◌%◌, ◌≡◌, ◌≤◌, refl, sym, ◌∙◌, subst, ap, arith, Bool, true, false, not,
  leb→le, Bool-cases, Option-cases, if◌then◌else◌, ◌⊎◌, inl, inr, List, [], ◌∷◌, ◌++◌,
}
use tufan_aks.Base.Words.{sub32, u32_mod}
use tufan_aks.Tasks.Transmit.{TxPort}
use tufan_aks.Tasks.Transmit.Offer.{Offer, recorded}
use tufan_aks.Tasks.Transmit.Bytes.{total_bytes}
use tufan_aks.Tasks.Radio.{Radio, Round, sample_snapshot, send_snapshot, tx_tick, round}
use tufan_aks.Tasks.Radio.Run.{RoundFits, Inv, WithinRate, round-Steps}

total-++ : (xs ys : List Offer) → total_bytes (xs ++ ys) ≡ total_bytes xs + total_bytes ys
total-++ [] ys = omega arith
total-++ (x ∷ xs) ys = omega (arith, total-++ xs ys)

-- One transmission of at most b more, at least p after the last one at l.
spent :
    (s s1 p b k l0 l t : ℕ)
    → s1 ≤ s + b
    → p + l ≤ t
    → s * p + b * l0 ≤ k + b * l
    → s1 * p + b * l0 ≤ k + b * t
spent s s1 p b k l0 l t h le before =
    omega (arith, before, mul-le-mul_right p h, mul-le-mul_right b le)

-- A difference of counts is at most the ticks that have passed.
gap : (l t p : ℕ) → l ≤ t → p ≤ sub32 (t % u32_mod) (l % u32_mod) → p ≤ t - l
gap l t p h le = omega arith

-- The bytes that have been offered so far.
unfoldable pub offered : {S : Type 0} → Radio (S × List Offer) → ℕ
offered r = total_bytes r.tx.hardware.1

module _ {S : Type 0} (port : TxPort S) (boot_ms period burst : ℕ) where
  -- A round either leaves the log and the tick of the last transmission, or a period has passed since that tick.
  abbrev Gated : Round → Radio (S × List Offer) → Radio (S × List Offer) → Type 0
  Gated i r r' =
      ((r'.last_telemetry_tick ≡ r.last_telemetry_tick) × (r'.tx.hardware.1 ≡ r.tx.hardware.1))
      ⊎ ((period ≤ sub32 i.now_tick r.last_telemetry_tick) × (r'.last_telemetry_tick ≡ i.now_tick))

  sample-keeps_tick :
      (i : Round) (r : Radio (S × List Offer))
      → (sample_snapshot (recorded port) boot_ms period i r).last_telemetry_tick
        ≡ r.last_telemetry_tick
  unfolding sample_snapshot
  sample-keeps_tick i r = elim (Option-cases i.snapshot) [
    | inl e ↦ rw e refl
    | inr (d, e) ↦ rw e refl
  ]

  tick-Gated :
      (i : Round) (r : Radio (S × List Offer))
      → Gated i r (tx_tick (recorded port) boot_ms period i r)
  unfolding tx_tick send_snapshot
  tick-Gated i r = by_period (Bool-cases (leb period (sub32 i.now_tick r.last_telemetry_tick)))
    where
      timed : Radio (S × List Offer)
      timed = record r { last_telemetry_tick = i.now_tick }

      by_link :
          period ≤ sub32 i.now_tick r.last_telemetry_tick
          → (down : Bool)
          → Gated i r (
              if not down
              then send_snapshot (recorded port) boot_ms period i timed
              else sample_snapshot (recorded port) boot_ms period i timed)
      by_link le true = inr (le, sample-keeps_tick i timed)
      by_link le false = inr (le, refl)

      by_period :
          (leb period (sub32 i.now_tick r.last_telemetry_tick) ≡ true)
            ⊎ (leb period (sub32 i.now_tick r.last_telemetry_tick) ≡ false)
          → Gated i r (tx_tick (recorded port) boot_ms period i r)
      by_period (inl e) = rw (e, tx_tick) (by_link (leb→le period _ e) r.scheduler.link_down)
      by_period (inr e) = rw (e, tx_tick) (inl (refl, refl))

  round-Gated :
      (i : Round) (r : Radio (S × List Offer))
      → Gated i r (round (recorded port) boot_ms period i r)
  unfolding round
  round-Gated i r = tick-Gated i _

  -- Up to the tick c, with the last transmission at some tick l: since the tick l0, at which the account stood at k, at most
  -- 108 bytes have been offered for each packet of a burst and one more, for each period.
  abbrev pub InBudget : ℕ → ℕ → ℕ → Radio (S × List Offer) → Type 0
  InBudget k l0 c r =
      (l : ℕ) × (l ≤ c)
      × (r.last_telemetry_tick ≡ l % u32_mod)
      × (offered r * period + 108 * (burst + 1) * l0 ≤ k + 108 * (burst + 1) * l)

  same-offered :
      (r r' : Radio (S × List Offer)) → r'.tx.hardware.1 ≡ r.tx.hardware.1 → offered r' ≡ offered r
  unfolding offered
  same-offered r r' e = ap total_bytes e

  rate-offered :
      (r r' : Radio (S × List Offer))
      → WithinRate burst r r'
      → offered r' ≤ offered r + 108 * (burst + 1)
  unfolding offered
  rate-offered r r' (new, e, b) = omega (arith, ap total_bytes e, total-++ r.tx.hardware.1 new, b)

  pub round-InBudget :
      (i : Round) (r : Radio (S × List Offer)) (k l0 c t : ℕ)
      → Inv burst r
      → RoundFits i
      → c ≤ t
      → i.now_tick ≡ t % u32_mod
      → InBudget k l0 c r
      → InBudget k l0 t (round (recorded port) boot_ms period i r)
  round-InBudget i r k l0 c t v f ct n (l, lc, last, account) =
      let r1 = round (recorded port) boot_ms period i r in
      elim (round-Gated i r) [
        | inl (same, log) ↦ (
          l,
          omega arith,
          same ∙ last,
          subst (λ o. o * period + 108 * (burst + 1) * l0 ≤ k + 108 * (burst + 1) * l)
              (sym (same-offered r r1 log)) account,
        )
        | inr (due, now) ↦
            (let passed : period ≤ t - l = gap l t period (omega arith) (
                subst (λ a. period ≤ sub32 a (l % u32_mod)) n
                  (subst (λ a. period ≤ sub32 i.now_tick a) last due)) in
              let grown = rate-offered r r1 (round-Steps port boot_ms period burst i r v f).1 in
              (
                t,
                omega arith,
                now ∙ n,
                spent (offered r) (offered r1) period (108 * (burst + 1)) k l0 l t grown
                    (omega arith) account,
              ))
      ]
