-- ===== src/Display.antt =====
-- The display, ESP_AKS/lib/DisplayHMI/DisplayHMI.cpp, with the helpers of ESP_AKS/lib/HMIHelpers. What is
-- written to the UART, whose answer the source ignores, is a list of writes, the oldest first; what is read
-- from it is the list of the bytes that have arrived.
pub mod Helpers
pub mod Touch
pub mod Screen
mod Tests
use tufan_aks.Base.{
  ℕ, ◌-◌, ◌==◌, Bool, true, false, not, ◌||◌, if◌then◌else◌, List, [], ◌∷◌, ◌++◌, Option, none,
  some,
}
use tufan_aks.Base.Int.{ℤ, pos}
use tufan_aks.Base.Decimal.{codes}
use tufan_aks.Display.Helpers.{
  HmiVcuState, state_text, format_error_text, validity_text, contactor_text, pack_voltage_to_xfloat,
  pack_current_to_xfloat, send_numeric_if_changed, send_text_if_changed, send_end_bytes,
}

pub record DisplayData : Type 0 where
  pub current_speed : ℕ  -- uint16
  pub current_battery : ℕ  -- uint8
  pub hmi_motor_rpm : ℕ  -- uint16
  pub motor_torque_feedback : ℤ  -- int16
  pub hmi_error_flags : ℕ  -- uint8
  pub bms_temperature_c : ℤ  -- int16
  pub pack_voltage_deci_v : ℕ  -- uint16
  pub pack_current_centi_a : ℤ  -- int32
  pub vcu_state : HmiVcuState
  pub contactor_closed : Bool
  pub hmi_data_valid : Bool
  pub hmi_timeout_active : Bool

pub record Display : Type 0 where
  pub is_initialized : Bool
  pub has_cached_screen : Bool
  pub last_screen_data : DisplayData

-- The loop reads until nothing is left.
pub drain_rx_buffer : List ℕ → List ℕ
drain_rx_buffer received = []

-- The three answers of the driver are true for ESP_OK. The bytes that have arrived are thrown away, also
-- those that arrive (`late`) while the display works on the command.
pub begin :
    Bool
    → Bool
    → Bool
    → List ℕ
    → Display
    → List (List ℕ)
    → List ℕ
    → Bool × Display × List (List ℕ) × List ℕ
begin param_config set_pin driver_install late d writes received =
    if d.is_initialized
    then (true, d, writes, received)
    else if not param_config
    then (false, d, writes, received)
    else if not set_pin
    then (false, d, writes, received)
    else if not driver_install
    then (false, d, writes, received)
    else (
      true,
      record d { is_initialized = true },
      send_end_bytes (writes ++ (codes "bkcmd=0" ∷ [])),
      drain_rx_buffer (drain_rx_buffer received ++ late),
    )

-- The eleven components, in the order of the source.
pub send_screen : Bool → DisplayData → DisplayData → List (List ℕ) → List (List ℕ)
send_screen force d last w0 =
    let w1 =
      send_numeric_if_changed (codes "speed") (pos d.current_speed) (pos last.current_speed) force
        w0 in
    let w2 =
      send_numeric_if_changed (codes "bat") (pos d.current_battery) (pos last.current_battery) force
        w1 in
    let w3 =
      send_numeric_if_changed (codes "rpm") (pos d.hmi_motor_rpm) (pos last.hmi_motor_rpm) force
        w2 in
    let w4 =
      send_numeric_if_changed (codes "torque") d.motor_torque_feedback last.motor_torque_feedback
        force w3 in
    let w5 =
      send_numeric_if_changed (codes "temp") d.bms_temperature_c last.bms_temperature_c force w4 in
    let w6 =
      send_numeric_if_changed (codes "packv") (pack_voltage_to_xfloat d.pack_voltage_deci_v)
        (pack_voltage_to_xfloat last.pack_voltage_deci_v) force w5 in
    let w7 =
      send_numeric_if_changed (codes "packa") (pack_current_to_xfloat d.pack_current_centi_a)
        (pack_current_to_xfloat last.pack_current_centi_a) force w6 in
    let w8 =
      send_text_if_changed (codes "state") (state_text d.vcu_state) (state_text last.vcu_state)
        force w7 in
    let w9 =
      send_text_if_changed (codes "motorErr") (format_error_text d.hmi_error_flags)
        (format_error_text last.hmi_error_flags) force w8 in
    let w10 =
      send_text_if_changed (codes "valid") (validity_text d.hmi_data_valid d.hmi_timeout_active)
        (validity_text last.hmi_data_valid last.hmi_timeout_active) force w9 in
    send_text_if_changed (codes "contactor") (contactor_text d.contactor_closed)
      (contactor_text last.contactor_closed) force w10

pub update_screen : DisplayData → Display → List (List ℕ) → Display × List (List ℕ)
update_screen screen d writes = if not d.is_initialized then (d, writes) else (
  record d { last_screen_data = screen; has_cached_screen = true },
  send_screen (not d.has_cached_screen) screen d.last_screen_data writes,
)

-- `rxState` 0, 1 and 2
pub data RxState : Type 0 where
  wait_header wait_command wait_checksum : RxState

-- The static variables of `readTouchCommand`.
pub record TouchRx : Type 0 where
  pub rx_state : RxState
  pub pending_cmd : ℕ  -- uint8

-- What a byte that is neither 0xFF nor 0x00 does in each state: a command, if it completes one.
pub take_byte : RxState → ℕ → TouchRx → Option ℕ × TouchRx
take_byte wait_header byte t =
    (none, if byte == 0x5A then record t { rx_state = wait_command } else t)
take_byte wait_command byte t = (none, record t { pending_cmd = byte; rx_state = wait_checksum })
take_byte wait_checksum byte t = (
  if byte == 255 - t.pending_cmd then some t.pending_cmd else none,
  record t { rx_state = wait_header },
)

pub touch_byte : ℕ → TouchRx → Option ℕ × TouchRx
touch_byte byte t =
    if (byte == 0xFF) || (byte == 0x00)
    then (none, record t { rx_state = wait_header })
    else take_byte t.rx_state byte t

-- The loop over the bytes that have arrived: those behind a command stay with the driver.
pub touch_bytes : List ℕ → TouchRx → Option ℕ × TouchRx × List ℕ
touch_bytes [] t = (none, t, [])
touch_bytes (b ∷ bs) t = elim (touch_byte b t).0 [
  | some c ↦ (some c, (touch_byte b t).1, bs)
  | none ↦ touch_bytes bs (touch_byte b t).1
]

pub read_touch_command : Display → List ℕ → TouchRx → Option ℕ × TouchRx × List ℕ
read_touch_command d received t =
    if not d.is_initialized then (none, t, received) else touch_bytes received t
