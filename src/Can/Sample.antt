-- ===== src/Can/Sample.antt =====
-- A run of `processRxMessages` of ESP_AKS/lib/CanManager/CanManager.cpp on one frame, of a pack above its
-- critical voltage.
use tufan_aks.Base.{◌≡◌, refl, true, List, [], ◌∷◌, none}
use tufan_aks.Fixtures.{extended_frame}
use tufan_aks.Parse.{
  parse_lb_bms_e000, check_pack_voltage_fault, is_motor_status_timed_out, is_bms_status_timed_out,
}
use tufan_aks.Can.{CanManager, new_manager, notify_fault_if_needed}
use tufan_aks.Can.Receive.{
  RxResult, received, process_rx_messages, handle_alerts, drain, dispatch, dispatch_extended,
  run_updates,
}
use tufan_aks.Can.Handle.{handle_lb_bms_e000}
use tufan_aks.Can.Update.{
  update_motor_status_validity, update_bms_validity, update_cell_voltage_validity,
  update_charger_validity,
}

abbrev pub started : CanManager
started = record new_manager { is_initialized = true; mutex = true; event_callback = true }

-- 89.0 V
abbrev pub high_frames : List RxResult
high_frames = received 5 (extended_frame 0xE000 (0 ∷ 0 ∷ 3 ∷ 122 ∷ 0 ∷ 0 ∷ 0 ∷ 0 ∷ [])) ∷ []

pub high-reported : (process_rx_messages (λ ms. ms) 4 6 none high_frames started).fault_events ≡ 1
unfolding process_rx_messages handle_alerts drain dispatch dispatch_extended handle_lb_bms_e000
    parse_lb_bms_e000 check_pack_voltage_fault notify_fault_if_needed run_updates
    update_motor_status_validity update_bms_validity update_cell_voltage_validity
    update_charger_validity is_motor_status_timed_out is_bms_status_timed_out
high-reported = refl
