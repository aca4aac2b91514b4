-- ===== src/Display/Helpers.antt =====
-- The pure functions of ESP_AKS/lib/HMIHelpers/HMIHelpers.h, and the commands of HMIHelpers.cpp.
use tufan_aks.Base.{ℕ, ◌/◌, ltb, Bool, not, ◌||◌, ◌&&◌, if◌then◌else◌, List, [], ◌∷◌, ◌++◌}
use tufan_aks.Base.Int.{ℤ, pos, negsuc, eqb_ℤ}
use tufan_aks.Base.Hex.{print_hex}
use tufan_aks.Base.Decimal.{codes, print_signed, eqb_text}

pub data HmiVcuState : Type 0 where
  init idle ready drive emergency_stop fault : HmiVcuState

pub state_text : HmiVcuState → List ℕ
state_text HmiVcuState.init = codes "INIT"
state_text HmiVcuState.idle = codes "IDLE"
state_text HmiVcuState.ready = codes "READY"
state_text HmiVcuState.drive = codes "DRIVE"
state_text HmiVcuState.emergency_stop = codes "ESTOP"
state_text HmiVcuState.fault = codes "FAULT"

-- "0x%02X" of a byte
pub format_error_text : ℕ → List ℕ
format_error_text flags = b'0' ∷ b'x' ∷ print_hex flags

pub validity_text : Bool → Bool → List ℕ
validity_text data_valid timeout_active =
    if timeout_active
    then codes "TIMEOUT"
    else if data_valid
    then codes "VALID"
    else codes "INVALID"

pub contactor_text : Bool → List ℕ
contactor_text closed = if closed then codes "CLOSED" else codes "OPEN"

abbrev pub battery_no_data : ℕ
battery_no_data = 255

abbrev pub temp_no_data : ℤ
temp_no_data = negsuc 126  -- -127

abbrev pub cell_voltage_no_data : ℕ
cell_voltage_no_data = 65535

pub battery_display_value : Bool → Bool → ℕ → ℕ
battery_display_value source_verified data_valid soc_hundredths =
    if not source_verified || not data_valid
    then battery_no_data
    else if ltb 100 (soc_hundredths / 100)
    then 100
    else soc_hundredths / 100

pub temperature_display_value : Bool → Bool → ℤ → ℤ
temperature_display_value source_verified data_valid temperature_c =
    if not source_verified || not data_valid then temp_no_data else temperature_c

pub pack_voltage_to_xfloat : ℕ → ℤ
pack_voltage_to_xfloat v = pos v

pub pack_current_to_xfloat : ℤ → ℤ
pack_current_to_xfloat a = a

pub send_end_bytes : List (List ℕ) → List (List ℕ)
send_end_bytes writes = writes ++ ((0xFF ∷ 0xFF ∷ 0xFF ∷ []) ∷ [])

pub numeric_command : List ℕ → ℤ → List ℕ
numeric_command component value = component ++ (codes ".val=" ++ print_signed value)

pub text_command : List ℕ → List ℕ → List ℕ
text_command component value = component ++ (codes ".txt=\"" ++ (value ++ (b'"' ∷ [])))

unfoldable pub send_numeric_if_changed : List ℕ → ℤ → ℤ → Bool → List (List ℕ) → List (List ℕ)
send_numeric_if_changed component value last force writes =
    if not force && eqb_ℤ value last
    then writes
    else send_end_bytes (writes ++ (numeric_command component value ∷ []))

unfoldable pub send_text_if_changed :
    List ℕ → List ℕ → List ℕ → Bool → List (List ℕ) → List (List ℕ)
send_text_if_changed component value last force writes =
    if not force && eqb_text value last
    then writes
    else send_end_bytes (writes ++ (text_command component value ∷ []))
