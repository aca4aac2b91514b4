-- ===== src/Can/Receive.antt =====
-- `processRxMessages` of ESP_AKS/lib/CanManager/CanManager.cpp: the driver's alerts, the bounded
-- drain of its queue, and the four updates. The driver (TWAI) is not part of the repository: what
-- it answers is an argument, the alerts as three flags and the queue as the list of the results of
-- the next calls of `twai_receive`, each frame with the tick at which its handler runs.
use tufan_aks.Base.{
  ℕ, zero, suc, ◌+◌, ◌%◌, ◌==◌, leb, ◌≤◌, ◌≡◌, refl, Bool, true, false, not, if◌then◌else◌, List,
  [], ◌∷◌, Option, none, some, arith, length, map,
}
use tufan_aks.Base.Words.{sub32, u32_mod}
use tufan_aks.Config.{can_rx_drain_max}
use tufan_aks.Parse.{CanFrame}
use tufan_aks.Can.{CanManager}
use tufan_aks.Can.Handle.{
  handle_motor_status, handle_lb_bms_e000, handle_lb_bms_e001, handle_lb_bms_e015,
  handle_lb_bms_e016, handle_lb_bms_e017, handle_lb_bms_e018, handle_lb_bms_e019,
  handle_lb_bms_e020, handle_charger_1806e5f4,
}
use tufan_aks.Can.Update.{
  update_motor_status_validity, update_bms_validity, update_cell_voltage_validity,
  update_charger_validity,
}

pub record Alerts : Type 0 where
  pub bus_off : Bool
  pub bus_recovered : Bool
  pub rx_queue_full : Bool

pub data RxResult : Type 0 where
  received : ℕ → CanFrame → RxResult
  rx_timeout rx_error : RxResult

-- The calls of the driver that follow an alert only restart it.
unfoldable pub handle_bus_off : Alerts → CanManager → CanManager
handle_bus_off a m =
    if a.bus_off
    then (if not m.bus_off_logged
        then record m { bus_off_logged = true; bus_recovered_logged = false }
        else m)
    else m

unfoldable pub handle_bus_recovered : Alerts → CanManager → CanManager
handle_bus_recovered a m =
    if a.bus_recovered
    then (if not m.bus_recovered_logged
        then record m { bus_recovered_logged = true; bus_off_logged = false }
        else m)
    else m

unfoldable pub handle_rx_queue_full : ℕ → ℕ → Alerts → CanManager → CanManager
handle_rx_queue_full interval now a m =
    if a.rx_queue_full
    then record m {
      rx_queue_full_count = (m.rx_queue_full_count + 1) % u32_mod;
      last_rx_queue_full_log_tick =
          if leb interval (sub32 now m.last_rx_queue_full_log_tick)
          then now
          else m.last_rx_queue_full_log_tick;
    }
    else m

-- The frames of the identifiers E002 to E006, E032, E033 and 0x000 are only logged.
unfoldable pub dispatch_extended : ℕ → CanFrame → CanManager → CanManager
dispatch_extended now f m =
    if f.identifier == 0xE000
    then handle_lb_bms_e000 now f m
    else if f.identifier == 0x1806E5F4
    then handle_charger_1806e5f4 now f m
    else if f.identifier == 0xE001
    then handle_lb_bms_e001 now f m
    else if f.identifier == 0xE015
    then handle_lb_bms_e015 now f m
    else if f.identifier == 0xE016
    then handle_lb_bms_e016 now f m
    else if f.identifier == 0xE017
    then handle_lb_bms_e017 now f m
    else if f.identifier == 0xE018
    then handle_lb_bms_e018 now f m
    else if f.identifier == 0xE019
    then handle_lb_bms_e019 now f m
    else if f.identifier == 0xE020
    then handle_lb_bms_e020 now f m
    else m

unfoldable pub dispatch : ℕ → CanFrame → CanManager → CanManager
dispatch now f m =
    if f.rtr
    then record m { rx_remote_frame_count = (m.rx_remote_frame_count + 1) % u32_mod }
    else if f.extd
    then dispatch_extended now f m
    else if f.identifier == 0x200
    then handle_motor_status now f m
    else m

-- The drain loop, with the number of turns left: the queue left over and the manager.
unfoldable pub drain : ℕ → List RxResult → CanManager → List RxResult × CanManager
drain zero q m = (q, m)
drain (suc n) [] m = ([], m)
drain (suc n) (rx_timeout ∷ q) m = (q, m)
drain (suc n) (rx_error ∷ q) m = (q, m)
drain (suc n) (received now f ∷ q) m = drain n q (dispatch now f m)

module _ (ms_to_ticks : ℕ → ℕ) where
  unfoldable pub handle_alerts : ℕ → Option Alerts → CanManager → CanManager
  handle_alerts now none m = m
  handle_alerts now (some a) m =
      handle_rx_queue_full (ms_to_ticks 1000) now a (handle_bus_recovered a (handle_bus_off a m))

  unfoldable pub run_updates : ℕ → CanManager → CanManager
  run_updates now m = update_charger_validity ms_to_ticks now (
      update_cell_voltage_validity ms_to_ticks now
        (update_bms_validity ms_to_ticks now (update_motor_status_validity ms_to_ticks now m)))

  -- `now` is the tick of the alerts, `later` that of the updates.
  unfoldable pub process_rx_messages :
      ℕ → ℕ → Option Alerts → List RxResult → CanManager → CanManager
  process_rx_messages now later alerts q m =
      if not m.is_initialized
      then m
      else run_updates later (drain can_rx_drain_max q (handle_alerts now alerts m)).1

-- The frames of a queue, and what they do one after the other.
pub dispatch_all : List (ℕ × CanFrame) → CanManager → CanManager
dispatch_all [] m = m
dispatch_all (x ∷ xs) m = dispatch_all xs (dispatch x.0 x.1 m)

abbrev pub arrived : ℕ × CanFrame → RxResult
arrived x = received x.0 x.1

-- A queue of at most n frames is served in order within n turns, and nothing of it is left.
pub drain-all :
    (n : ℕ) (xs : List (ℕ × CanFrame)) (m : CanManager)
    → length xs ≤ n
    → drain n (map arrived xs) m ≡ ([], dispatch_all xs m)
unfolding drain dispatch_all
drain-all zero [] m h = refl
drain-all zero (x ∷ xs) m h = absurd (omega arith)
drain-all (suc n) [] m h = refl
drain-all (suc n) (x ∷ xs) m h = drain-all n xs (dispatch x.0 x.1 m) (omega arith)
