-- ===== src/Display/Tests.antt =====
-- The reader of the touch frames on the bytes of the start button, with one that was begun before.
use tufan_aks.Base.{ℕ, ◌≡◌, refl, true, false, List, [], ◌∷◌, ◌++◌, some}
use tufan_aks.Base.Int.{pos}
use tufan_aks.Display.{
  DisplayData, Display, TouchRx, read_touch_command, wait_header, wait_command, touch_bytes,
  touch_byte, take_byte,
}
use tufan_aks.Display.Helpers.{HmiVcuState}
use tufan_aks.Display.Touch.{begun, touch_frame, command-frame}

abbrev screen : DisplayData
screen = record {
  current_speed = 0;
  current_battery = 50;
  hmi_motor_rpm = 0;
  motor_torque_feedback = pos 0;
  hmi_error_flags = 0;
  bms_temperature_c = pos 20;
  pack_voltage_deci_v = 800;
  pack_current_centi_a = pos 0;
  vcu_state = HmiVcuState.idle;
  contactor_closed = false;
  hmi_data_valid = true;
  hmi_timeout_active = false;
}

abbrev display : Display
display = record { is_initialized = true; has_cached_screen = true; last_screen_data = screen }

abbrev half : TouchRx
half = record { rx_state = wait_command; pending_cmd = 7 }

start_read :
    read_touch_command display (1 ∷ 254 ∷ 9 ∷ []) half
    ≡ (some 1, record { rx_state = wait_header; pending_cmd = 1 }, 9 ∷ [])
unfolding read_touch_command touch_bytes touch_byte take_byte
start_read = refl

command-frame_example :
    (before : List ℕ) × (begun half ++ (1 ∷ 254 ∷ 9 ∷ []) ≡ before ++ (touch_frame 1 ++ (9 ∷ [])))
command-frame_example =
    command-frame display (1 ∷ 254 ∷ 9 ∷ []) half
      (record { rx_state = wait_header; pending_cmd = 1 }) 1 (9 ∷ []) start_read
