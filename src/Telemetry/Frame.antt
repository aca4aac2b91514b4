-- ===== src/Telemetry/Frame.antt =====
-- The size of a telemetry packet, ESP_AKS/lib/Telemetry/Telemetry.cpp.
use tufan_aks.Base.{
  ℕ, zero, suc, ◌%◌, not, if◌then◌else◌, ◌+◌, ◌≡◌, ◌≤◌, ◌<◌, refl, arith, Bool, true, false, List,
  [], ◌∷◌, length, length-append, take, ap, ◌∙◌,
}
use tufan_aks.Base.Int.{ℤ, pos, ltb_ℤ, pos_part, neg_part}
use tufan_aks.Base.Words.{u8_mod, u16_mod, u32_mod}
use tufan_aks.Base.Decimal.{length-print, length-print_signed}
use tufan_aks.Data.{TelemetryData}
use tufan_aks.Telemetry.{Telemetry, send_status, fields, comma_separated, frame, payload, flag}

-- The values are of the types of the source's fields.
pub record Fits (d : TelemetryData) : Type 0 where
  pub rpm_pos : pos_part d.motor_rpm < 32768
  pub rpm_neg : neg_part d.motor_rpm ≤ 32768
  pub motor_voltage : d.motor_voltage_deci_v < u16_mod
  pub error_flags : d.motor_error_flags < u8_mod
  pub cell_max : d.bms_cell_voltage_max_deci_mv < u16_mod
  pub cell_min : d.bms_cell_voltage_min_deci_mv < u16_mod
  pub highest_pos : pos_part d.bms_temp_highest_c < 128
  pub highest_neg : neg_part d.bms_temp_highest_c ≤ 128
  pub lowest_pos : pos_part d.bms_temp_lowest_c < 128
  pub lowest_neg : neg_part d.bms_temp_lowest_c ≤ 128
  pub system_state : d.bms_system_state < u8_mod
  pub pack_voltage : d.bms_pack_voltage_deci_v < u16_mod
  pub current_pos : pos_part d.bms_current_centi_a < 2147483648
  pub current_neg : neg_part d.bms_current_centi_a ≤ 2147483648
  pub soc : d.bms_soc_hundredths < u16_mod
  pub timestamp : d.timestamp_ms < u32_mod
  pub speed : d.speed_kmh_x10 < u16_mod

-- Each value has at most the width beside it.
abbrev Narrow : List (List ℕ) → List ℕ → Type 0
Narrow [] [] = Unit
Narrow (f ∷ fs) (w ∷ ws) = (length f ≤ w) × Narrow fs ws
Narrow [] (w ∷ ws) = ⊥
Narrow (f ∷ fs) [] = ⊥

abbrev total : List ℕ → ℕ
total [] = 2
total (w ∷ ws) = suc (w + total ws)

length-comma_separated :
    (fs : List (List ℕ)) (ws : List ℕ) → Narrow fs ws → length (comma_separated fs) ≤ total ws
unfolding comma_separated
length-comma_separated [] [] h = omega arith
length-comma_separated (f ∷ fs) (w ∷ ws) (h, hs) =
    omega (arith, h, length-comma_separated fs ws hs, length-append f (comma_separated fs))
length-comma_separated [] (w ∷ ws) h = absurd h
length-comma_separated (f ∷ fs) [] h = absurd h

length-flag : (b : Bool) → length (flag b) ≤ 1
length-flag true = omega arith
length-flag false = omega arith

-- A pair, for one component after another.
infixr 3 ◌&◌
abbrev ◌&◌ : {A B : Type 0} → A → B → A × B
a & b = (a, b)

widths : List ℕ
widths = 1 ∷ 10 ∷ 6 ∷ 5 ∷ 3 ∷ 1 ∷ 1 ∷ 5 ∷ 5 ∷ 4 ∷ 4 ∷ 3 ∷ 5 ∷ 11 ∷ 5 ∷ 1 ∷ 10 ∷ 5 ∷ []

fields-Narrow :
    (seq : ℕ) (d : TelemetryData) → seq < u32_mod → Fits d → Narrow (fields seq d) widths
unfolding fields widths
fields-Narrow seq d h f =
    length-print 0 2 (omega arith)
    & length-print 9 seq (omega arith)
    & length-print_signed 4 d.motor_rpm (omega (arith, f.rpm_pos)) (omega (arith, f.rpm_neg))
    & length-print 4 d.motor_voltage_deci_v (omega (arith, f.motor_voltage))
    & length-print 2 d.motor_error_flags (omega (arith, f.error_flags))
    & length-flag d.motor_data_valid
    & length-flag d.motor_timeout_active
    & length-print 4 d.bms_cell_voltage_max_deci_mv (omega (arith, f.cell_max))
    & length-print 4 d.bms_cell_voltage_min_deci_mv (omega (arith, f.cell_min))
    & length-print_signed 2 d.bms_temp_highest_c (omega (arith, f.highest_pos))
        (omega (arith, f.highest_neg))
    & length-print_signed 2 d.bms_temp_lowest_c (omega (arith, f.lowest_pos))
        (omega (arith, f.lowest_neg))
    & length-print 2 d.bms_system_state (omega (arith, f.system_state))
    & length-print 4 d.bms_pack_voltage_deci_v (omega (arith, f.pack_voltage))
    & length-print_signed 9 d.bms_current_centi_a (omega (arith, f.current_pos))
        (omega (arith, f.current_neg))
    & length-print 4 d.bms_soc_hundredths (omega (arith, f.soc))
    & length-flag d.bms_data_valid
    & length-print 9 d.timestamp_ms (omega (arith, f.timestamp))
    & length-print 4 d.speed_kmh_x10 (omega (arith, f.speed))
    & tt

take_all : (n : ℕ) (l : List ℕ) → length l ≤ n → take n l ≡ l
take_all zero [] h = refl
take_all zero (x ∷ l) h = absurd (omega arith)
take_all (suc n) [] h = refl
take_all (suc n) (x ∷ l) h = ap (λ t. x ∷ t) (take_all n l (omega arith))

-- A packet of a sample whose values are of the types of the source's fields, with any sequence number of 32
-- bits, has at most 108 bytes, and it is sent whole.
pub frame-whole :
    (seq : ℕ) (d : TelemetryData)
    → seq < u32_mod
    → Fits d
    → (length (frame seq d) ≤ 108) × (payload seq d ≡ frame seq d)
unfolding frame payload widths
frame-whole seq d h f =
    let w : length (frame seq d) ≤ 108 =
      omega (arith, length-comma_separated (fields seq d) widths (fields-Narrow seq d h f)) in
    (w, take_all 191 (frame seq d) (omega arith))

-- What a started sender does with a packet: it offers the frame, whole, and counts it if the UART takes it.
pub send_status-value :
    {S : Type 0} (uart_write : List ℕ → S → ℤ × S) (d : TelemetryData) (t : Telemetry) (s : S)
    → t.is_initialized ≡ true
    → t.sequence_counter < u32_mod
    → Fits d
    → let r = uart_write (frame t.sequence_counter d) s in
      send_status uart_write d t s ≡ (
        record t {
          sequence_counter =
              if not (ltb_ℤ (r.0) (pos 0))
              then (t.sequence_counter + 1) % u32_mod
              else t.sequence_counter;
        },
        r.1,
      )
unfolding send_status
send_status-value {S = S} uart_write d t s i l f =
    ap (λ b. if not b then (t, s) else sent (payload t.sequence_counter d)) i
    ∙ ap sent ((frame-whole t.sequence_counter d l f).1)
    ∙ by_answer (ltb_ℤ (uart_write (frame t.sequence_counter d) s).0 (pos 0))
  where
    counted : Telemetry
    counted = record t { sequence_counter = (t.sequence_counter + 1) % u32_mod }

    sent : List ℕ → Telemetry × S
    sent bytes =
        if ltb_ℤ (uart_write bytes s).0 (pos 0)
        then (t, (uart_write bytes s).1)
        else (counted, (uart_write bytes s).1)

    after : S
    after = (uart_write (frame t.sequence_counter d) s).1

    by_answer :
        (failed : Bool)
        → ◌≡◌ {A = Telemetry × S} (if failed then (t, after) else (counted, after)) (
          record t {
            sequence_counter =
                if not failed then (t.sequence_counter + 1) % u32_mod else t.sequence_counter;
          },
          after,
        )
    by_answer true = refl
    by_answer false = refl
