-- ===== src/Can/Fits.antt =====
-- The values that CanManager keeps, ESP_AKS/lib/CanManager/CanManager.cpp, are of the types of its fields whatever
-- frames arrive.
use Prim.Native.Nat.{bit_and}
use tufan_aks.Base.{
  ℕ, ◌+◌, ◌≤◌, ◌<◌, refl, arith, ltb, Option, none, some, all_below-holds, List, All,
}
use tufan_aks.Base.Int.{pos_part, neg_part, scale}
use tufan_aks.Base.Words.{signed8, signed16}
use tufan_aks.Data.{TelemetryData}
use tufan_aks.Telemetry.Frame.{Fits}
use tufan_aks.Parse.{CanFrame, byte, word, parse_motor_status, parse_lb_bms_e000, parse_lb_bms_e001}
use tufan_aks.Parse.Fields.{AreBytes, get_or-AreBytes, word_lt}
use tufan_aks.Can.{CanManager, new_manager, notify_fault_if_needed, send_torque_command}
use tufan_aks.Can.Handle.{
  store_motor_status, handle_motor_status, handle_lb_bms_e000, handle_lb_bms_e001, store_cells,
  store_parsed, handle_charger_1806e5f4,
}
use tufan_aks.Data.{zero_telemetry}
use tufan_aks.Parse.Fields.{parse_group}
use tufan_aks.Can.Keep.{Keeps, RxFits, process-keeps}
use tufan_aks.Can.Update.{
  update_motor_status_validity, update_bms_validity, update_cell_voltage_validity,
  update_charger_validity,
}
use tufan_aks.Can.Receive.{
  Alerts, RxResult, handle_bus_off, handle_bus_recovered, handle_rx_queue_full, handle_alerts,
  run_updates, process_rx_messages,
}

-- The snapshot of the manager.
abbrev pub ManagerFits : CanManager → Type 0
ManagerFits m = Fits m.telemetry

pub signed16_range :
    (w : ℕ) → w < 65536 → (pos_part (signed16 w) < 32768) × (neg_part (signed16 w) ≤ 32768)
signed16_range w h = ground arith

signed8_range : (w : ℕ) → w < 256 → (pos_part (signed8 w) < 128) × (neg_part (signed8 w) ≤ 128)
signed8_range w h = ground arith

current_range :
    (w : ℕ)
    → w < 65536
    → (pos_part (scale 10 (signed16 w)) < 2147483648)
      × (neg_part (scale 10 (signed16 w)) ≤ 2147483648)
current_range w h = ground arith

notify-Fits :
    (a b : ℕ) (m : CanManager) → ManagerFits m → ManagerFits (notify_fault_if_needed a b m)
unfolding notify_fault_if_needed
notify-Fits a b m h = ground arith

e000-Fits :
    (now : ℕ) (f : CanFrame) (m : CanManager)
    → AreBytes f.bytes
    → ManagerFits m
    → ManagerFits (handle_lb_bms_e000 now f m)
unfolding handle_lb_bms_e000 parse_lb_bms_e000 notify_fault_if_needed
e000-Fits now f m b h =
    ground (arith, current_range (word f 0) (word_lt f 0 b), word_lt f 2 b, word_lt f 4 b)

pub masked_byte : (b : ℕ) → b < 256 → bit_and b 0xFE < 256
masked_byte b h = ground (arith, all_below-holds (λ b. ltb (bit_and b 0xFE) 256) 256 b refl h)

magnitude_range :
    (w : ℕ)
    → w < 65536
    → let r = signed16 (pos_part (signed16 w) + neg_part (signed16 w)) in
      (pos_part r < 32768) × (neg_part r ≤ 32768)
magnitude_range w h = ground arith

motor-Fits :
    (now : ℕ) (f : CanFrame) (m : CanManager)
    → AreBytes f.bytes
    → ManagerFits m
    → ManagerFits (handle_motor_status now f m)
unfolding handle_motor_status parse_motor_status store_motor_status notify_fault_if_needed
motor-Fits now f m b h = ground (
  arith,
  magnitude_range (word f 0) (word_lt f 0 b),
  word_lt f 2 b,
  masked_byte (byte f 7) (get_or-AreBytes f.bytes 7 b),
)

e001-Fits :
    (now : ℕ) (f : CanFrame) (m : CanManager)
    → AreBytes f.bytes
    → ManagerFits m
    → ManagerFits (handle_lb_bms_e001 now f m)
unfolding handle_lb_bms_e001 parse_lb_bms_e001
e001-Fits now f m b h = ground (
  arith,
  word_lt f 0 b,
  word_lt f 2 b,
  signed8_range (byte f 6) (get_or-AreBytes f.bytes 6 b),
  signed8_range (byte f 7) (get_or-AreBytes f.bytes 7 b),
)

store_parsed-Fits :
    (g now : ℕ) (p : Option TelemetryData) (m : CanManager)
    → ManagerFits m
    → ManagerFits (store_parsed g now p m)
unfolding store_cells
store_parsed-Fits g now none m h = h
store_parsed-Fits g now (some p) m h = ground arith

charger-Fits :
    (now : ℕ) (f : CanFrame) (m : CanManager)
    → ManagerFits m
    → ManagerFits (handle_charger_1806e5f4 now f m)
unfolding handle_charger_1806e5f4
charger-Fits now f m h = ground arith

module _ (ms_to_ticks : ℕ → ℕ) where
  alerts-Fits :
      (now : ℕ) (a : Option Alerts) (m : CanManager)
      → ManagerFits m
      → ManagerFits (handle_alerts ms_to_ticks now a m)
  unfolding handle_alerts handle_rx_queue_full handle_bus_off handle_bus_recovered
  alerts-Fits now none m h = h
  alerts-Fits now (some a) m h = ground arith

  motor_update-Fits :
      (now : ℕ) (m : CanManager)
      → ManagerFits m
      → ManagerFits (update_motor_status_validity ms_to_ticks now m)
  unfolding update_motor_status_validity
  motor_update-Fits now m h = ground arith

  bms_update-Fits :
      (now : ℕ) (m : CanManager)
      → ManagerFits m
      → ManagerFits (update_bms_validity ms_to_ticks now m)
  unfolding update_bms_validity
  bms_update-Fits now m h = ground arith

  cell_update-Fits :
      (now : ℕ) (m : CanManager)
      → ManagerFits m
      → ManagerFits (update_cell_voltage_validity ms_to_ticks now m)
  unfolding update_cell_voltage_validity
  cell_update-Fits now m h = ground arith

  charger_update-Fits :
      (now : ℕ) (m : CanManager)
      → ManagerFits m
      → ManagerFits (update_charger_validity ms_to_ticks now m)
  unfolding update_charger_validity
  charger_update-Fits now m h = ground arith

  updates-Fits :
      (now : ℕ) (m : CanManager) → ManagerFits m → ManagerFits (run_updates ms_to_ticks now m)
  unfolding run_updates
  updates-Fits now m h =
      charger_update-Fits now _
        (cell_update-Fits now _ (bms_update-Fits now _ (motor_update-Fits now m h)))

  pub keeps-Fits : Keeps ms_to_ticks ManagerFits
  keeps-Fits = record {
    motor = motor-Fits;
    e000 = e000-Fits;
    e001 = e001-Fits;
    charger = λ now f m b h. charger-Fits now f m h;
    cells = λ g now f m lt b h. store_parsed-Fits g now (parse_group g f zero_telemetry) m h;
    remote = λ m h. h;
    alerts = alerts-Fits;
    updates = updates-Fits;
  }

  -- The manager's snapshot stays within the types of its fields: if it is, then it is after `processRxMessages`, whatever
  -- alerts and frames the driver delivers, if their bytes are bytes.
  pub process-Fits :
      (now later : ℕ) (alerts : Option Alerts) (q : List RxResult) (m : CanManager)
      → All RxFits q
      → ManagerFits m
      → ManagerFits (process_rx_messages ms_to_ticks now later alerts q m)
  process-Fits now later alerts q m =
      process-keeps ms_to_ticks ManagerFits keeps-Fits now later alerts q m

pub new_manager-Fits : ManagerFits new_manager
new_manager-Fits = ground arith

pub torque-Fits : (t : ℕ) (m : CanManager) → ManagerFits m → ManagerFits (send_torque_command t m).1
unfolding send_torque_command
torque-Fits t m h = ground arith
