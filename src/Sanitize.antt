-- ===== src/Sanitize.antt =====
-- The last gate before the radio, ESP_AKS/lib/Telemetry/TelemetrySanitize.h.
pub mod Range
mod Tests
use tufan_aks.Base.{
  ℕ, ◌-◌, ◌≡◌, ◌≤◌, ◌⊎◌, ◌≢◌, arith, leb, ltb, ◌&&◌, Bool, true, false, if◌then◌else◌, inl, inr,
  refl, ap₂, ◌==◌,
}
use tufan_aks.Base.Int.{ℤ, pos, negsuc}
use tufan_aks.Data.{TelemetryData}

pub sanitize_system_state : ℕ → ℕ
sanitize_system_state raw = if leb 1 raw && leb raw 4 then raw else 4

pub sanitize_soc : ℕ → ℕ
sanitize_soc raw = if ltb 10000 raw then 10000 else raw

-- INT32_MIN
abbrev pub int32_min : ℤ
int32_min = negsuc 2147483647

abbrev is_int32_min : ℤ → Bool
is_int32_min (pos n) = false
is_int32_min (negsuc n) = n == 2147483647

pub sanitize_current : ℤ → ℤ
sanitize_current raw = if is_int32_min raw then negsuc 2147483646 else raw

pub sanitize_for_uplink : TelemetryData → TelemetryData
sanitize_for_uplink raw = record raw {
  bms_system_state = sanitize_system_state raw.bms_system_state;
  bms_soc_hundredths = sanitize_soc raw.bms_soc_hundredths;
  bms_current_centi_a = sanitize_current raw.bms_current_centi_a;
}

-- What the receiver of the packets accepts in the three fields.
abbrev pub IsAccepted : TelemetryData → Type 0
IsAccepted d =
    (1 ≤ d.bms_system_state)
    × (d.bms_system_state ≤ 4)
    × (d.bms_soc_hundredths ≤ 10000)
    × (is_int32_min d.bms_current_centi_a ≡ false)

state_range : (n : ℕ) → (1 ≤ sanitize_system_state n) × (sanitize_system_state n ≤ 4)
unfolding sanitize_system_state
state_range n = ground arith

soc_range : (n : ℕ) → sanitize_soc n ≤ 10000
unfolding sanitize_soc
soc_range n = ground arith

current_range : (z : ℤ) → is_int32_min (sanitize_current z) ≡ false
unfolding sanitize_current
current_range (pos n) = refl
current_range (negsuc n) = ground arith

state_same : (n : ℕ) → 1 ≤ n → n ≤ 4 → sanitize_system_state n ≡ n
unfolding sanitize_system_state
state_same n a b = ground arith

soc_same : (n : ℕ) → n ≤ 10000 → sanitize_soc n ≡ n
unfolding sanitize_soc
soc_same n a = ground arith

current_same : (z : ℤ) → is_int32_min z ≡ false → sanitize_current z ≡ z
unfolding sanitize_current
current_same z a = ground arith

sanitize_same : (d : TelemetryData) → IsAccepted d → sanitize_for_uplink d ≡ d
unfolding sanitize_for_uplink
sanitize_same d (a, b, c, e) =
    ap₂
      (λ s (k : ℕ × ℤ). record d {
        bms_system_state = s;
        bms_soc_hundredths = k.0;
        bms_current_centi_a = k.1;
      })
      (state_same d.bms_system_state a b)
      (ap₂ (λ x y. (x, y)) (soc_same d.bms_soc_hundredths c) (current_same d.bms_current_centi_a e))

-- Whatever a sample holds, after the gate the receiver accepts its three fields, and the gate
-- changes nothing the second time.
pub sanitize-IsAccepted :
    (d : TelemetryData)
    → IsAccepted (sanitize_for_uplink d)
      × (sanitize_for_uplink (sanitize_for_uplink d) ≡ sanitize_for_uplink d)
unfolding sanitize_for_uplink
sanitize-IsAccepted d =
    let s = state_range d.bms_system_state in
    let ok : IsAccepted (sanitize_for_uplink d) =
      (s.0, s.1, soc_range d.bms_soc_hundredths, current_range d.bms_current_centi_a) in
    (ok, sanitize_same (sanitize_for_uplink d) ok)
