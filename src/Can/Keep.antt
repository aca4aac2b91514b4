-- ===== src/Can/Keep.antt =====
-- What holds of the manager before `processRxMessages` of ESP_AKS/lib/CanManager/CanManager.cpp holds after it, if each
-- handler and each update keeps it.
use tufan_aks.Base.{
  ℕ, zero, suc, ◌+◌, ◌%◌, ◌==◌, ◌<◌, arith, Bool, true, false, not, if◌then◌else◌, Option, List, [],
  ◌∷◌, All,
}
use tufan_aks.Base.Words.{u32_mod}
use tufan_aks.Config.{can_rx_drain_max}
use tufan_aks.Data.{zero_telemetry}
use tufan_aks.Parse.{CanFrame}
use tufan_aks.Parse.Fields.{AreBytes, parse_group}
use tufan_aks.Can.{CanManager}
use tufan_aks.Can.Handle.{
  handle_motor_status, handle_lb_bms_e000, handle_lb_bms_e001, store_parsed, handle_lb_bms_e015,
  handle_lb_bms_e016, handle_lb_bms_e017, handle_lb_bms_e018, handle_lb_bms_e019,
  handle_lb_bms_e020, handle_charger_1806e5f4,
}
use tufan_aks.Can.Receive.{
  Alerts, RxResult, received, rx_timeout, rx_error, handle_alerts, dispatch_extended, dispatch,
  drain, run_updates, process_rx_messages,
}

-- The bytes of a frame that the driver delivers.
abbrev pub RxFits : RxResult → Type 0
RxFits (received now f) = AreBytes f.bytes
RxFits _ = Unit

module _ (ms_to_ticks : ℕ → ℕ) (P : CanManager → Type 0) where
  -- Each handler keeps P on frames of bytes, and so do the alerts and the updates.
  pub record Keeps : Type 0 where
    pub motor :
        (now : ℕ) (f : CanFrame) (m : CanManager)
        → AreBytes f.bytes
        → P m
        → P (handle_motor_status now f m)
    pub e000 :
        (now : ℕ) (f : CanFrame) (m : CanManager)
        → AreBytes f.bytes
        → P m
        → P (handle_lb_bms_e000 now f m)
    pub e001 :
        (now : ℕ) (f : CanFrame) (m : CanManager)
        → AreBytes f.bytes
        → P m
        → P (handle_lb_bms_e001 now f m)
    pub charger :
        (now : ℕ) (f : CanFrame) (m : CanManager)
        → AreBytes f.bytes
        → P m
        → P (handle_charger_1806e5f4 now f m)
    pub cells :
        (g now : ℕ) (f : CanFrame) (m : CanManager)
        → g < 6
        → AreBytes f.bytes
        → P m
        → P (store_parsed g now (parse_group g f zero_telemetry) m)
    pub remote :
        (m : CanManager)
        → P m
        → P (record m { rx_remote_frame_count = (m.rx_remote_frame_count + 1) % u32_mod })
    pub alerts :
        (now : ℕ) (a : Option Alerts) (m : CanManager) → P m → P (handle_alerts ms_to_ticks now a m)
    pub updates : (now : ℕ) (m : CanManager) → P m → P (run_updates ms_to_ticks now m)

  module _ (k : Keeps) where
    either : (c : Bool) (x y : CanManager) → P x → P y → P (if c then x else y)
    either true x y h l = h
    either false x y h l = l

    extended-keeps :
        (now : ℕ) (f : CanFrame) (m : CanManager)
        → AreBytes f.bytes
        → P m
        → P (dispatch_extended now f m)
    unfolding dispatch_extended handle_lb_bms_e015 handle_lb_bms_e016 handle_lb_bms_e017
        handle_lb_bms_e018 handle_lb_bms_e019 handle_lb_bms_e020
    extended-keeps now f m b h = either (f.identifier == 0xE000) _ _ (k.e000 now f m b h) (
        either (f.identifier == 0x1806E5F4) _ _ (k.charger now f m b h) (
          either (f.identifier == 0xE001) _ _ (k.e001 now f m b h) (
            either (f.identifier == 0xE015) _ _ (k.cells 0 now f m (omega arith) b h) (
              either (f.identifier == 0xE016) _ _ (k.cells 1 now f m (omega arith) b h) (
                either (f.identifier == 0xE017) _ _ (k.cells 2 now f m (omega arith) b h) (
                  either (f.identifier == 0xE018) _ _ (k.cells 3 now f m (omega arith) b h) (
                    either (f.identifier == 0xE019) _ _ (k.cells 4 now f m (omega arith) b h) (
                      either (f.identifier == 0xE020) _ _ (k.cells 5 now f m (omega arith) b h)
                        h))))))))

    dispatch-keeps :
        (now : ℕ) (f : CanFrame) (m : CanManager) → AreBytes f.bytes → P m → P (dispatch now f m)
    unfolding dispatch
    dispatch-keeps now f m b h = either f.rtr _ _ (k.remote m h) (
        either f.extd _ _ (extended-keeps now f m b h)
          (either (f.identifier == 0x200) _ _ (k.motor now f m b h) h))

    drain-keeps :
        (n : ℕ) (q : List RxResult) (m : CanManager) → All RxFits q → P m → P (drain n q m).1
    unfolding drain
    drain-keeps zero q m b h = h
    drain-keeps (suc n) [] m b h = h
    drain-keeps (suc n) (rx_timeout ∷ q) m b h = h
    drain-keeps (suc n) (rx_error ∷ q) m b h = h
    drain-keeps (suc n) (received now f ∷ q) m (b, bs) h =
        drain-keeps n q (dispatch now f m) bs (dispatch-keeps now f m b h)

    pub process-keeps :
        (now later : ℕ) (alerts : Option Alerts) (q : List RxResult) (m : CanManager)
        → All RxFits q
        → P m
        → P (process_rx_messages ms_to_ticks now later alerts q m)
    unfolding process_rx_messages
    process-keeps now later alerts q m b h =
        either (not m.is_initialized) _ _ h
          (k.updates later _ (drain-keeps can_rx_drain_max q _ b (k.alerts now alerts m h)))
