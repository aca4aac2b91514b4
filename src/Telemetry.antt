-- ===== src/Telemetry.antt =====
-- The telemetry packets of the radio, ESP_AKS/lib/Telemetry/Telemetry.cpp. The text is a list of character
-- codes. `uart_write_bytes` is a parameter: it takes the bytes and the state of the hardware, and gives its
-- count, negative for a failure, and the next state.
pub mod Frame
use tufan_aks.Base.{
  ℕ, ◌+◌, ◌-◌, ◌%◌, Bool, true, false, not, if◌then◌else◌, ltb, List, [], ◌∷◌, ◌++◌, length, take,
}
use tufan_aks.Base.Int.{ℤ, pos, ltb_ℤ}
use tufan_aks.Base.Words.{u32_mod}
use tufan_aks.Base.Decimal.{codes, print_unsigned, print_signed}
use tufan_aks.Data.{TelemetryData}

pub record Telemetry : Type 0 where
  pub is_initialized : Bool
  pub sequence_counter : ℕ  -- uint32

unfoldable pub begin : Telemetry → Telemetry
begin t = record { is_initialized = true; sequence_counter = 0 }

abbrev pub lora_protocol_version : ℕ
lora_protocol_version = 2

abbrev pub payload_size : ℕ
payload_size = 192

abbrev flag : Bool → List ℕ
flag b = if b then b'1' ∷ [] else b'0' ∷ []

-- The values of the format string, in its order.
pub fields : ℕ → TelemetryData → List (List ℕ)
fields seq d =
    print_unsigned lora_protocol_version
    ∷ print_unsigned seq
    ∷ print_signed d.motor_rpm
    ∷ print_unsigned d.motor_voltage_deci_v
    ∷ print_unsigned d.motor_error_flags
    ∷ flag d.motor_data_valid
    ∷ flag d.motor_timeout_active
    ∷ print_unsigned d.bms_cell_voltage_max_deci_mv
    ∷ print_unsigned d.bms_cell_voltage_min_deci_mv
    ∷ print_signed d.bms_temp_highest_c
    ∷ print_signed d.bms_temp_lowest_c
    ∷ print_unsigned d.bms_system_state
    ∷ print_unsigned d.bms_pack_voltage_deci_v
    ∷ print_signed d.bms_current_centi_a
    ∷ print_unsigned d.bms_soc_hundredths
    ∷ flag d.bms_data_valid
    ∷ print_unsigned d.timestamp_ms
    ∷ print_unsigned d.speed_kmh_x10
    ∷ []

-- Each value after a comma, and the end of the line.
pub comma_separated : List (List ℕ) → List ℕ
comma_separated [] = 13 ∷ 10 ∷ []
comma_separated (f ∷ fs) = b',' ∷ (f ++ comma_separated fs)

pub frame : ℕ → TelemetryData → List ℕ
frame seq d = codes "TEL" ++ comma_separated (fields seq d)

-- What `snprintf` leaves in the buffer of `payload_size` bytes, without the closing NUL.
pub payload : ℕ → TelemetryData → List ℕ
payload seq d = take (payload_size - 1) (frame seq d)

module _ {S : Type 0} (uart_write : List ℕ → S → ℤ × S) where
  pub send_status : TelemetryData → Telemetry → S → Telemetry × S
  send_status d t s =
      if not t.is_initialized
      then (t, s)
      else if ltb_ℤ (uart_write (payload t.sequence_counter d) s).0 (pos 0)
      then (t, (uart_write (payload t.sequence_counter d) s).1)
      else (
        record t { sequence_counter = (t.sequence_counter + 1) % u32_mod },
        (uart_write (payload t.sequence_counter d) s).1,
      )
