-- ===== src/Tasks/Transmit/Bytes.antt =====
-- The bytes of the packets that the radio task of ESP_AKS/src/main.cpp offers to the UART.
use tufan_aks.Base.{
  ℕ, zero, suc, ◌+◌, ◌*◌, ◌≤◌, ◌<◌, arith, Bool, true, false, List, [], ◌∷◌, ◌++◌, length, map,
  take, All,
}
use tufan_aks.Base.Words.{u32_mod}
use tufan_aks.Data.{TelemetryData}
use tufan_aks.Sanitize.{sanitize_for_uplink}
use tufan_aks.Sanitize.Range.{sanitize-Fits}
use tufan_aks.Telemetry.Frame.{Fits, frame-whole}
use tufan_aks.Tasks.Transmit.Offer.{Offer, numbered, next_number}

pub All-take : (n : ℕ) (xs : List TelemetryData) → All Fits xs → All Fits (take n xs)
All-take zero xs h = tt
All-take (suc n) [] h = tt
All-take (suc n) (x ∷ xs) (h, hs) = (h, All-take n xs hs)

abbrev pub total_bytes : List Offer → ℕ
total_bytes [] = 0
total_bytes (o ∷ os) = length (o.0) + total_bytes os

next_number-lt : (seq : ℕ) (taken : Bool) → seq < u32_mod → next_number seq taken < u32_mod
next_number-lt seq true h = omega arith
next_number-lt seq false h = h

pub bytes_bound :
    (seq : ℕ) (ps : List (TelemetryData × Bool))
    → seq < u32_mod
    → All (λ p. Fits (p.0)) ps
    → total_bytes (numbered seq ps) ≤ 108 * length ps
bytes_bound seq [] h f = omega arith
bytes_bound seq (p ∷ ps) h (f, fs) = omega (
  arith,
  (frame-whole seq (sanitize_for_uplink (p.0)) h (sanitize-Fits (p.0) f)).0,
  bytes_bound (next_number seq (p.1)) ps (next_number-lt seq (p.1) h) fs,
)

pub All-map :
    (ps : List (TelemetryData × Bool)) → All Fits (map (λ p. p.0) ps) → All (λ p. Fits (p.0)) ps
All-map [] h = tt
All-map (p ∷ ps) (h, hs) = (h, All-map ps hs)

pub All-append :
    (ps qs : List (TelemetryData × Bool))
    → All (λ p. Fits (p.0)) ps
    → All (λ p. Fits (p.0)) qs
    → All (λ p. Fits (p.0)) (ps ++ qs)
All-append [] ys h g = g
All-append (x ∷ xs) ys (h, hs) g = (h, All-append xs ys hs g)
